-- ===== src/Server/RoomState/Playback.antt =====
-- apps/server/src/room-state.ts: broadcasters and the pointer.
use spotjam.Prelude.{
  ℕ, zero, suc, ℤ, ltb_ℤ, String, Bool, false, not, ◌||◌, ◌==◌, eq_iff, none, some, is_none, List,
  arith, ◌≡◌, refl, Option-cases, Bool-cases, inl, inr,
}
use spotjam.Prelude.Dict
use spotjam.Prelude.Dict.{get-put}
use spotjam.Protocol.Types.{QueueItem, SharedPlaylist}
use spotjam.Protocol.Pointer.{ends_at}
use spotjam.Protocol.Tracks.{is_empty}
use spotjam.Server.RoomState.Core.{
  Member, RoomState, with_member, settle_pointer, any_broadcasting, map_queue,
  broadcasters_with_tracks,
}
use spotjam.Server.RoomState.Ops.{
  join, leave, set_broadcasting, set_public_playlists, advance, played, settle, settle_loop,
  settle_start, set_paused, seek, track_count,
}
use spotjam.Server.RoomState.Membership.{
  IsRoster, found_here, with_member-IsRoster, left-IsRoster, advance-IsRoster,
}
use spotjam.Server.RoomState.Turns.{Broadcaster, any→Broadcaster, advance_cases, Feeder}

-- A pointer at a track needs a broadcaster.
abbrev pub IsJustified : RoomState → Type 0
IsJustified s = is_none s.pointer.item_id ≡ false → Broadcaster s

same_broadcasters : {s t : RoomState} → t.members ≡ s.members → Broadcaster s → Broadcaster t
same_broadcasters e b = record {
  key = b.key;
  member = b.member;
  found = ground (arith, b.found);
  broadcasts = b.broadcasts;
}

-- A broadcaster stays one when a record is replaced by one that broadcasts if the old one did.
with_member-Broadcaster :
    (s : RoomState) (m old : Member)
    → Dict.get m.pubkey s.members ≡ some old
    → m.broadcasting ≡ old.broadcasting
    → Broadcaster s
    → Broadcaster (with_member s m)
unfolding with_member
with_member-Broadcaster s m old e same b = elim (Bool-cases (m.pubkey == b.key)) [
  | inl h ↦ record {
    key = b.key;
    member = m;
    found = rw (get-put m.pubkey b.key m s.members, h);
    broadcasts = ground (arith, eq_iff m.pubkey b.key, b.found, b.broadcasts);
  }
  | inr h ↦ record {
    key = b.key;
    member = b.member;
    found = rw (get-put m.pubkey b.key m s.members, h) b.found;
    broadcasts = b.broadcasts;
  }
]

settle_pointer-IsJustified : (s : RoomState) → IsRoster s → IsJustified (settle_pointer s)
unfolding settle_pointer
settle_pointer-IsJustified s r playing = elim (Bool-cases (any_broadcasting s)) [
  | inl e ↦ same_broadcasters (ground arith) (any→Broadcaster s r e)
  | inr e ↦ absurd (ground arith)
]

joined-Broadcaster :
    (s : RoomState) (pubkey : String) (m : Member) (order : List String)
    → Dict.get pubkey s.members ≡ none
    → Broadcaster s
    → Broadcaster (record s { members = Dict.put pubkey m s.members; order = order })
joined-Broadcaster s pubkey m order e b = record {
  key = b.key;
  member = b.member;
  found = ground (arith, get-put pubkey b.key m s.members, eq_iff pubkey b.key, b.found);
  broadcasts = b.broadcasts;
}

pub join-IsJustified :
    (s : RoomState) (pubkey username : String)
    → IsRoster s
    → IsJustified s
    → IsJustified (join s pubkey username)
unfolding join with_member
join-IsJustified s pubkey username r j = elim (Option-cases (Dict.get pubkey s.members)) [
  | inl e ↦ rw (e, join) (λ playing. joined-Broadcaster s pubkey _ _ e (j playing))
  | inr (m, e) ↦
      rw (e, join)
        λ playing.
          with_member-Broadcaster s (record m { username = username }) m (found_here s pubkey m r e)
            refl (j playing)
]

pub leave-IsJustified :
    (s : RoomState) (pubkey : String) → IsRoster s → IsJustified s → IsJustified (leave s pubkey)
unfolding leave
leave-IsJustified s pubkey r j = elim (Bool-cases (Dict.has pubkey s.members)) [
  | inl e ↦ rw (e, leave) (settle_pointer-IsJustified _ (left-IsRoster s pubkey r))
  | inr e ↦ rw (e, leave) j
]

pub map_queue-IsJustified :
    (s : RoomState) (pubkey : String) (f : List QueueItem → List QueueItem)
    → IsRoster s
    → IsJustified s
    → IsJustified (map_queue s pubkey f)
unfolding map_queue
map_queue-IsJustified s pubkey f r j = elim (Option-cases (Dict.get pubkey s.members)) [
  | inl e ↦ rw (e, map_queue) j
  | inr (m, e) ↦
      rw (e, map_queue)
        (settle_pointer-IsJustified _ (with_member-IsRoster s _ m (found_here s pubkey m r e) r))
]

pub set_broadcasting-IsJustified :
    (s : RoomState) (pubkey : String) (b : Bool)
    → IsRoster s
    → IsJustified s
    → IsJustified (set_broadcasting s pubkey b)
unfolding set_broadcasting
set_broadcasting-IsJustified s pubkey b r j = elim (Option-cases (Dict.get pubkey s.members)) [
  | inl e ↦ rw (e, set_broadcasting) j
  | inr (m, e) ↦
      rw (e, set_broadcasting)
        (settle_pointer-IsJustified _ (with_member-IsRoster s _ m (found_here s pubkey m r e) r))
]

pub set_public_playlists-IsJustified :
    (s : RoomState) (pubkey : String) (ps : List SharedPlaylist)
    → IsRoster s
    → IsJustified s
    → IsJustified (set_public_playlists s pubkey ps)
unfolding set_public_playlists with_member
set_public_playlists-IsJustified s pubkey ps r j = elim (Option-cases (Dict.get pubkey s.members)) [
  | inl e ↦ rw (e, set_public_playlists) j
  | inr (m, e) ↦
      rw (e, set_public_playlists)
        λ playing. with_member-Broadcaster s _ m (found_here s pubkey m r e) refl (j playing)
]

played-IsJustified :
    (s : RoomState) (now : ℤ) (f : Feeder s) → IsJustified (played s now f.member f.head f.rest)
unfolding with_member
played-IsJustified s now f playing = record {
  key = f.member.pubkey;
  member = record f.member { queue = f.rest };
  found = ground (
    arith,
    get-put f.member.pubkey f.member.pubkey (record f.member { queue = f.rest }) s.members,
    eq_iff f.member.pubkey f.member.pubkey,
  );
  broadcasts = f.broadcasts;
}

-- What `advance` plays is a broadcaster's.
pub advance-IsJustified : (s : RoomState) (now : ℤ) → IsRoster s → IsJustified (advance s now)
advance-IsJustified s now r = elim (advance_cases s now r) [
  | inl (_, e) ↦ rw e (λ playing. absurd (ground arith))
  | inr (f, e) ↦ rw e (played-IsJustified s now f)
]

pub settle_loop-IsJustified :
    (fuel : ℕ) (s : RoomState) (now : ℤ)
    → IsRoster s
    → IsJustified s
    → IsJustified (settle_loop fuel s now)
unfolding settle_loop
settle_loop-IsJustified zero s now r j = j
settle_loop-IsJustified (suc fuel) s now r j = elim (Option-cases (ends_at s.pointer)) [
  | inl e ↦ rw (e, settle_loop) j
  | inr (end, e) ↦
      let later =
        settle_loop-IsJustified fuel (advance s end) now (advance-IsRoster s end r)
          (advance-IsJustified s end r) in
      rw (e, settle_loop)
        (elim (Bool-cases (ltb_ℤ now end)) [ inl t ↦ rw t j | inr t ↦ rw t later ])
]

pub settle-IsJustified :
    (s : RoomState) (now : ℤ) → IsRoster s → IsJustified s → IsJustified (settle s now)
unfolding settle
settle-IsJustified s now r j = settle_loop-IsJustified (suc (suc (track_count s.members))) s now r j

pub settle_start-IsJustified :
    (s : RoomState) (now : ℤ) → IsRoster s → IsJustified s → IsJustified (settle_start s now)
unfolding settle_start
settle_start-IsJustified s now r j =
    elim (Bool-cases (not (is_none s.pointer.item_id) || is_empty (broadcasters_with_tracks s))) [
      | inl e ↦ rw (e, settle_start) j
      | inr e ↦ rw (e, settle_start) (advance-IsJustified s now r)
    ]

pub set_paused-IsJustified :
    (s : RoomState) (paused : Bool) (now : ℤ)
    → IsJustified s
    → IsJustified (set_paused s paused now)
unfolding set_paused
set_paused-IsJustified s paused now j playing = same_broadcasters (ground arith) (j (ground arith))

pub seek-IsJustified :
    (s : RoomState) (position now : ℤ) → IsJustified s → IsJustified (seek s position now)
unfolding seek
seek-IsJustified s position now j playing = same_broadcasters (ground arith) (j (ground arith))
