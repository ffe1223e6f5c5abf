-- ===== src/Server/RoomState/Membership.antt =====
-- apps/server/src/room-state.ts: who is in a room, and in which order.
use spotjam.Prelude.{
  ℕ, zero, suc, ℤ, ltb_ℤ, Bool-cases, String, Bool, false, not, ◌==◌, eq_iff, none, some, List, [],
  ◌∷◌, ◌++◌, keep_if, includes, Distinct, includes-append, includes-keep_ne, Distinct-keep_ne,
  Distinct-append_one, Map, arith, ◌≡◌, refl, Option-cases, inl, inr,
}
use spotjam.Prelude.Dict
use spotjam.Prelude.Dict.{get-put, get-delete}
use spotjam.Protocol.Types.{QueueItem, SharedPlaylist}
use spotjam.Protocol.Pointer.{ends_at}
use spotjam.Server.RoomState.Core.{
  Member, RoomState, with_member, settle_pointer, map_queue, in_order, members_in_order,
}
use spotjam.Server.RoomState.Ops.{
  join, leave, new_member, set_broadcasting, set_public_playlists, advance, turn, play_from,
  play_head, settle, settle_loop, settle_start, set_paused, seek, track_count,
}

pub record IsRoster (s : RoomState) : Type 0 where
  pub keyed : (k : String) (m : Member) → Dict.get k s.members ≡ some m → m.pubkey ≡ k
  pub listed : (k : String) → includes k s.order ≡ Dict.has k s.members
  pub distinct : Distinct s.order

-- The members that the keys name, with no thought of repetition.
unfoldable pub lookups : Map Member → List String → List Member
lookups members [] = []
lookups members (k ∷ rest) = elim (Dict.get k members) [
  | none ↦ lookups members rest
  | some m ↦ m ∷ lookups members rest
]

abbrev Apart : List String → List String → Type 0
Apart seen [] = Unit {0}
Apart seen (k ∷ rest) = (includes k seen ≡ false) × Apart seen rest

Apart-cons :
    (k : String) (seen rest : List String)
    → includes k rest ≡ false
    → Apart seen rest
    → Apart (k ∷ seen) rest
Apart-cons k seen [] h a = tt
Apart-cons k seen (x ∷ rest) h a = ground (arith, Apart-cons k seen rest, eq_iff x k, eq_iff k x)

Apart-nil : (rest : List String) → Apart [] rest
Apart-nil [] = tt
Apart-nil (x ∷ rest) = (refl, Apart-nil rest)

in_order-lookups :
    (members : Map Member) (seen order : List String)
    → Distinct order
    → Apart seen order
    → in_order members seen order ≡ lookups members order
unfolding in_order lookups
in_order-lookups members seen [] d a = refl
in_order-lookups members seen (k ∷ rest) d a =
    ground (arith, in_order-lookups members (k ∷ seen) rest d.1 (Apart-cons k seen rest d.0 a.1))

-- With each key once, turn order is the order of the keys.
pub members_in_order-lookups :
    (s : RoomState) → Distinct s.order → members_in_order s ≡ lookups s.members s.order
unfolding members_in_order
members_in_order-lookups s d = in_order-lookups s.members [] s.order d (Apart-nil s.order)

pub settle_pointer_keeps :
    (s : RoomState)
    → ((settle_pointer s).members ≡ s.members)
      × ((settle_pointer s).order ≡ s.order)
      × ((settle_pointer s).turn_cursor ≡ s.turn_cursor)
      × ((settle_pointer s).room_id ≡ s.room_id)
unfolding settle_pointer
settle_pointer_keeps s = ground arith

pub settle_pointer-IsRoster : (s : RoomState) → IsRoster s → IsRoster (settle_pointer s)
unfolding settle_pointer
settle_pointer-IsRoster s r = ground arith

-- A member who is there may be replaced by another record under the same key.
pub with_member-IsRoster :
    (s : RoomState) (m old : Member)
    → Dict.get m.pubkey s.members ≡ some old
    → IsRoster s
    → IsRoster (with_member s m)
unfolding with_member
with_member-IsRoster s m old e r = record {
  keyed = λ k n h. ground (arith, get-put m.pubkey k m s.members, r.keyed k n, eq_iff m.pubkey k);
  listed = λ k. ground (arith, get-put m.pubkey k m s.members, r.listed k, eq_iff m.pubkey k);
  distinct = r.distinct;
}

-- The member found under a key, changed in any field but the key.
pub found_here :
    (s : RoomState) (k : String) (m : Member)
    → IsRoster s
    → Dict.get k s.members ≡ some m
    → Dict.get m.pubkey s.members ≡ some m
found_here s k m r e = ground (arith, r.keyed k m e)

joined-IsRoster :
    (s : RoomState) (pubkey username : String)
    → Dict.get pubkey s.members ≡ none
    → IsRoster s
    → IsRoster (record s {
      members = Dict.put pubkey (new_member pubkey username) s.members;
      order = s.order ++ pubkey ∷ [];
    })
joined-IsRoster s pubkey username e r = record {
  keyed = λ k n h. ground (
    arith,
    get-put pubkey k (new_member pubkey username) s.members,
    r.keyed k n,
    eq_iff pubkey k,
  );
  listed = λ k. ground (
    arith,
    get-put pubkey k (new_member pubkey username) s.members,
    includes-append k s.order (pubkey ∷ []),
    r.listed k,
  );
  distinct = Distinct-append_one pubkey s.order (rw (r.listed pubkey, e)) r.distinct;
}

pub join-IsRoster :
    (s : RoomState) (pubkey username : String) → IsRoster s → IsRoster (join s pubkey username)
unfolding join
join-IsRoster s pubkey username r = elim (Option-cases (Dict.get pubkey s.members)) [
  | inl e ↦ rw (e, join) (joined-IsRoster s pubkey username e r)
  | inr (m, e) ↦ rw (e, join) (with_member-IsRoster s _ m (found_here s pubkey m r e) r)
]

pub left-IsRoster :
    (s : RoomState) (pubkey : String)
    → IsRoster s
    → IsRoster (record s {
      members = Dict.delete pubkey s.members;
      order = keep_if (λ key. not (key == pubkey)) s.order;
    })
left-IsRoster s pubkey r = record {
  keyed = λ k n h. ground (arith, get-delete pubkey k s.members, r.keyed k n);
  listed = λ k.
      ground (arith, get-delete pubkey k s.members, includes-keep_ne pubkey k s.order, r.listed k);
  distinct = Distinct-keep_ne pubkey s.order r.distinct;
}

pub leave-IsRoster : (s : RoomState) (pubkey : String) → IsRoster s → IsRoster (leave s pubkey)
unfolding leave
leave-IsRoster s pubkey r = ground (arith, settle_pointer-IsRoster _ (left-IsRoster s pubkey r))

pub map_queue-IsRoster :
    (s : RoomState) (pubkey : String) (f : List QueueItem → List QueueItem)
    → IsRoster s
    → IsRoster (map_queue s pubkey f)
unfolding map_queue
map_queue-IsRoster s pubkey f r = elim (Option-cases (Dict.get pubkey s.members)) [
  | inl e ↦ rw (e, map_queue) r
  | inr (m, e) ↦
      rw (e, map_queue)
        (settle_pointer-IsRoster _ (with_member-IsRoster s _ m (found_here s pubkey m r e) r))
]

pub set_broadcasting-IsRoster :
    (s : RoomState) (pubkey : String) (b : Bool)
    → IsRoster s
    → IsRoster (set_broadcasting s pubkey b)
unfolding set_broadcasting
set_broadcasting-IsRoster s pubkey b r = elim (Option-cases (Dict.get pubkey s.members)) [
  | inl e ↦ rw (e, set_broadcasting) r
  | inr (m, e) ↦
      rw (e, set_broadcasting)
        (settle_pointer-IsRoster _ (with_member-IsRoster s _ m (found_here s pubkey m r e) r))
]

pub set_public_playlists-IsRoster :
    (s : RoomState) (pubkey : String) (ps : List SharedPlaylist)
    → IsRoster s
    → IsRoster (set_public_playlists s pubkey ps)
unfolding set_public_playlists
set_public_playlists-IsRoster s pubkey ps r = elim (Option-cases (Dict.get pubkey s.members)) [
  | inl e ↦ rw (e, set_public_playlists) r
  | inr (m, e) ↦
      rw (e, set_public_playlists) (with_member-IsRoster s _ m (found_here s pubkey m r e) r)
]

play_head-IsRoster :
    (s : RoomState) (now : ℤ) (m : Member) (queue : List QueueItem)
    → Dict.get m.pubkey s.members ≡ some m
    → IsRoster s
    → IsRoster (play_head s now m queue)
unfolding play_head
play_head-IsRoster s now m [] e r = ground arith
play_head-IsRoster s now m (head ∷ rest) e r =
    let kept = with_member-IsRoster s (record m { queue = rest }) m e r in ground (arith, kept)

play_from-IsRoster :
    (s : RoomState) (now : ℤ) (next : String) → IsRoster s → IsRoster (play_from s now next)
unfolding play_from
play_from-IsRoster s now next r = elim (Option-cases (Dict.get next s.members)) [
  | inl e ↦ rw (e, play_from) (ground arith)
  | inr (m, e) ↦ rw (e, play_from) (play_head-IsRoster s now m m.queue (found_here s next m r e) r)
]

pub advance-IsRoster : (s : RoomState) (now : ℤ) → IsRoster s → IsRoster (advance s now)
unfolding advance
advance-IsRoster s now r = elim (Option-cases (turn s)) [
  | inl e ↦ rw (e, advance) (ground arith)
  | inr (k, e) ↦ rw (e, advance) (play_from-IsRoster s now k r)
]

pub settle_loop-IsRoster :
    (fuel : ℕ) (s : RoomState) (now : ℤ) → IsRoster s → IsRoster (settle_loop fuel s now)
unfolding settle_loop
settle_loop-IsRoster zero s now r = r
settle_loop-IsRoster (suc fuel) s now r = elim (Option-cases (ends_at s.pointer)) [
  | inl e ↦ rw (e, settle_loop) r
  | inr (end, e) ↦
      let later = settle_loop-IsRoster fuel (advance s end) now (advance-IsRoster s end r) in
      rw (e, settle_loop)
        (elim (Bool-cases (ltb_ℤ now end)) [ inl t ↦ rw t r | inr t ↦ rw t later ])
]

pub settle-IsRoster : (s : RoomState) (now : ℤ) → IsRoster s → IsRoster (settle s now)
unfolding settle
settle-IsRoster s now r = settle_loop-IsRoster (suc (suc (track_count s.members))) s now r

pub settle_start-IsRoster : (s : RoomState) (now : ℤ) → IsRoster s → IsRoster (settle_start s now)
unfolding settle_start
settle_start-IsRoster s now r = ground (arith, advance-IsRoster s now r)

pub set_paused-IsRoster :
    (s : RoomState) (paused : Bool) (now : ℤ) → IsRoster s → IsRoster (set_paused s paused now)
unfolding set_paused
set_paused-IsRoster s paused now r = ground arith

pub seek-IsRoster : (s : RoomState) (position now : ℤ) → IsRoster s → IsRoster (seek s position now)
unfolding seek
seek-IsRoster s position now r = ground arith
