-- ===== src/Server/RoomState/Turns.antt =====
-- apps/server/src/room-state.ts: whose turn it is, and what `advance` does with it.
use spotjam.Prelude.{
  keep_if, ℕ, zero, suc, ◌%◌, ℤ, String, Bool, true, eq_iff, none, some, List, [], ◌∷◌, some_of,
  includes, length, get_elem?, get_elem?-map, get_elem?-keep_if, get_elem?_of_lt, Map, arith, ◌≡◌,
  refl, Option-cases, Bool-cases, ◌⊎◌, inl, inr,
}
use spotjam.Prelude.Dict
use spotjam.Protocol.Types.{QueueItem}
use spotjam.Server.RoomState.Core.{
  Member, RoomState, members_in_order, broadcasters_with_tracks, is_feeder, has_tracks,
  any_broadcasting,
}
use spotjam.Server.RoomState.Ops.{turn, advance, play_from, play_head, played, cleared}
use spotjam.Server.RoomState.Membership.{IsRoster, lookups, members_in_order-lookups}

-- A member who is there and broadcasts.
pub record Broadcaster (s : RoomState) : Type 0 where
  pub key : String
  pub member : Member
  pub found : Dict.get key s.members ≡ some member
  pub broadcasts : member.broadcasting ≡ true

module _ (P : Member → Bool) (members : Map Member) where
  some_of-lookups :
      (order : List String)
      → some_of P (lookups members order) ≡ true
      → (k : String) × (m : Member) × (Dict.get k members ≡ some m) × (P m ≡ true)
  unfolding lookups
  some_of-lookups [] h = cc
  some_of-lookups (k ∷ order) h = elim (Option-cases (Dict.get k members)) [
    | inl e ↦ some_of-lookups order (rw (e, lookups) at h)
    | inr (m, e) ↦ elim (Bool-cases (P m)) [
      | inl p ↦ (k, m, e, p)
      | inr p ↦ some_of-lookups order (ground arith)
    ]
  ]

  lookups-some_of :
      (order : List String) (k : String) (m : Member)
      → includes k order ≡ true
      → Dict.get k members ≡ some m
      → P m ≡ true
      → some_of P (lookups members order) ≡ true
  unfolding lookups
  lookups-some_of [] k m i e p = cc
  lookups-some_of (x ∷ order) k m i e p = ground (arith, lookups-some_of order k m, eq_iff x k)

-- Somebody broadcasts exactly when the scan in turn order finds one.
pub any→Broadcaster : (s : RoomState) → IsRoster s → any_broadcasting s ≡ true → Broadcaster s
unfolding any_broadcasting
any→Broadcaster s r h =
    let (k, m, e, p) =
      some_of-lookups (λ m. m.broadcasting) s.members s.order
        (rw (members_in_order-lookups s r.distinct) at h) in
    record { key = k; member = m; found = e; broadcasts = p }

pub Broadcaster→any : (s : RoomState) → IsRoster s → Broadcaster s → any_broadcasting s ≡ true
unfolding any_broadcasting
Broadcaster→any s r b = rw (members_in_order-lookups s r.distinct) (
    lookups-some_of (λ m. m.broadcasting) s.members s.order b.key b.member
      (ground (arith, r.listed b.key, b.found)) b.found b.broadcasts)

lookups-found :
    (members : Map Member) (order : List String) (i : ℕ) (m : Member)
    → get_elem? (lookups members order) i ≡ some m
    → (k : String) × (Dict.get k members ≡ some m)
unfolding lookups
lookups-found members [] i m h = absurd (ground arith)
lookups-found members (k ∷ order) zero m h = elim (Option-cases (Dict.get k members)) [
  | inl e ↦ lookups-found members order zero m (rw (e, lookups) at h)
  | inr (n, e) ↦ (k, ground arith)
]
lookups-found members (k ∷ order) (suc i) m h = elim (Option-cases (Dict.get k members)) [
  | inl e ↦ lookups-found members order (suc i) m (rw (e, lookups) at h)
  | inr (n, e) ↦ lookups-found members order i m (rw (e, lookups) at h)
]

-- A member whose queue feeds the room, with the head of that queue.
pub record Feeder (s : RoomState) : Type 0 where
  pub member : Member
  pub head : QueueItem
  pub rest : List QueueItem
  pub found : Dict.get member.pubkey s.members ≡ some member
  pub broadcasts : member.broadcasting ≡ true
  pub queue_is : member.queue ≡ head ∷ rest
  pub in_turn : turn s ≡ some member.pubkey
  pub at_cursor :
      get_elem?
        (keep_if is_feeder (members_in_order s))
        (s.turn_cursor % length (broadcasters_with_tracks s))
      ≡ some member

split_queue :
    (m : Member)
    → is_feeder m ≡ true
    → (m.broadcasting ≡ true)
      × ((head : QueueItem) × (rest : List QueueItem) × (m.queue ≡ head ∷ rest))
split_queue m h = (ground arith, nonempty m.queue (ground arith))
  where
    nonempty :
        (q : List QueueItem)
        → has_tracks q ≡ true
        → (head : QueueItem) × (rest : List QueueItem) × (q ≡ head ∷ rest)
    nonempty [] e = absurd (ground arith)
    nonempty (head ∷ rest) e = (head, rest, refl)

nth_feeder :
    (s : RoomState) (i : ℕ) (k : String)
    → IsRoster s
    → get_elem? (broadcasters_with_tracks s) i ≡ some k
    → (m : Member) × (Dict.get k s.members ≡ some m)
      × (m.pubkey ≡ k)
      × (is_feeder m ≡ true)
      × (get_elem? (keep_if is_feeder (members_in_order s)) i ≡ some m)
unfolding broadcasters_with_tracks
nth_feeder s i k r h =
    let (m, e, p) = get_elem?-map (λ m. m.pubkey) _ i k h in
    let (j, f, q) = get_elem?-keep_if is_feeder (members_in_order s) i m e in
    let (x, found) =
      lookups-found s.members s.order j m (rw (members_in_order-lookups s r.distinct) at f) in
    (m, ground (arith, r.keyed x m), p, q, e)

-- If it is someone's turn, then of a member who broadcasts and has tracks.
pub turn-Feeder : (s : RoomState) (k : String) → IsRoster s → turn s ≡ some k → Feeder s
unfolding turn
turn-Feeder s k r h =
    let (m, found, p, q, at) =
      nth_feeder s (s.turn_cursor % length (broadcasters_with_tracks s)) k r (ground arith) in
    let (b, (head, rest, e)) = split_queue m q in
    record {
      member = m;
      head = head;
      rest = rest;
      found = rw p found;
      broadcasts = b;
      queue_is = e;
      in_turn = ground arith;
      at_cursor = at;
    }

-- It is nobody's turn only if no broadcaster has tracks.
pub turn-none : (s : RoomState) → turn s ≡ none → broadcasters_with_tracks s ≡ []
unfolding turn
turn-none s h = empty (broadcasters_with_tracks s) refl
  where
    empty : (fs : List String) → broadcasters_with_tracks s ≡ fs → broadcasters_with_tracks s ≡ []
    empty [] e = e
    empty (f ∷ fs) e =
        let (k, found) = get_elem?_of_lt (f ∷ fs) (s.turn_cursor % length (f ∷ fs)) (omega arith) in
        absurd (ground (arith, found))

-- `advance` clears the pointer, or takes the head of the feeder's queue.
pub advance_cases :
    (s : RoomState) (now : ℤ)
    → IsRoster s
    → ((broadcasters_with_tracks s ≡ []) × (advance s now ≡ cleared s))
      ⊎ ((f : Feeder s) × (advance s now ≡ played s now f.member f.head f.rest))
unfolding advance play_from play_head
advance_cases s now r = elim (Option-cases (turn s)) [
  | inl e ↦ inl (turn-none s e, rw (e, advance))
  | inr (k, e) ↦
      let f = turn-Feeder s k r e in inr (f, ground (arith, e, f.in_turn, f.found, f.queue_is))
]
