-- ===== src/Client/View/Peers.antt =====
-- packages/room/src/lib/room-client.ts and apps/server/src/room-state.ts: what a client reads off a
-- snapshot, against the room that the server projected.
use spotjam.Prelude.{
  ℕ, zero, suc, ◌≤◌, ℤ, String, Bool, true, false, ◌==◌, eq_iff, ◌&&◌, if◌then◌else◌, Bool-cases,
  Option, none, some, List, [], ◌∷◌, ◌++◌, map, keep_if, append-nil, Distinct, length, get_elem?,
  take, drop, arith, ◌≡◌, refl, ap, inl, inr, ◌∙◌,
}
use spotjam.Prelude.Dict
use spotjam.Protocol.Types.{QueueItem, SessionEntry}
use spotjam.Server.RoomState.Core.{
  Member, RoomState, members_in_order, is_feeder, has_tracks, rotate,
}
use spotjam.Server.RoomState.View as Server
use spotjam.Server.RoomState.View.{
  round_entries, rounds, deepest, feeding_members, build_session_queue, project_snapshot, entry_of,
}
use spotjam.Server.RoomState.Membership.{IsRoster}
use spotjam.Client.View.Members.{
  pubkeys, find_member, find_member-absent, rotated, find_member-keep_if, in_turn, members-Distinct,
  feeders-Distinct,
}
use spotjam.Client.View.{RoomView, take_snapshot, queue_of, my_queue_of, session_queue_of}

-- The tracks of one owner among entries.
abbrev items_of : String → List SessionEntry → List QueueItem
items_of pk entries =
    map (λ entry. entry.item) (keep_if (λ entry. entry.owner_pubkey == pk) entries)

items_of-append :
    (pk : String) (xs ys : List SessionEntry)
    → items_of pk (xs ++ ys) ≡ items_of pk xs ++ items_of pk ys
items_of-append pk [] ys = refl
items_of-append pk (x ∷ xs) ys = elim (Bool-cases (x.owner_pubkey == pk)) [
  | inl e ↦ rw (e, items_of-append pk xs ys)
  | inr e ↦ rw (e, items_of-append pk xs ys)
]

abbrev to_list : Option QueueItem → List QueueItem
to_list none = []
to_list (some i) = i ∷ []

-- What the room shows of a member's queue: nothing, unless the member broadcasts.
abbrev pub shown_queue : Option Member → List QueueItem
shown_queue none = []
shown_queue (some m) = if m.broadcasting then m.queue else []

abbrev queue_found : Option Member → List QueueItem
queue_found none = []
queue_found (some m) = m.queue

items_of-entry :
    (pk : String) (m : Member) (rest : List SessionEntry) (o : Option QueueItem)
    → items_of pk (elim o [ none ↦ rest | some item ↦ entry_of m item ∷ rest ])
      ≡ (if m.pubkey == pk then to_list o ++ items_of pk rest else items_of pk rest)
items_of-entry pk m rest none = ground arith
items_of-entry pk m rest (some i) = elim (Bool-cases (m.pubkey == pk)) [
  | inl e ↦ rw e
  | inr e ↦ rw e
]

-- A round holds one track of each member.
items_of-round_entries :
    (pk : String) (round : ℕ) (ms : List Member)
    → Distinct (pubkeys ms)
    → items_of pk (round_entries round ms)
      ≡ to_list (get_elem? (queue_found (find_member pk ms)) round)
unfolding round_entries find_member
items_of-round_entries pk round [] d = refl
items_of-round_entries pk round (m ∷ ms) d =
    items_of-entry pk m (round_entries round ms) (get_elem? m.queue round)
    ∙ elim (Bool-cases (m.pubkey == pk)) [
      | inl is ↦
          let is' = (eq_iff m.pubkey pk).0 is in
          let gone = find_member-absent pk ms (rw is' at (d.0)) in
          rw is (rw (items_of-round_entries pk round ms d.1, gone) (append-nil _))
      | inr isnt ↦ rw isnt (items_of-round_entries pk round ms d.1)
    ]

take_nil : (n : ℕ) → take {A = QueueItem} n [] ≡ []
take_nil zero = refl
take_nil (suc n) = refl

to_list-drop :
    (xs : List QueueItem) (at n : ℕ)
    → to_list (get_elem? xs at) ++ take n (drop (suc at) xs) ≡ take (suc n) (drop at xs)
to_list-drop [] zero n = take_nil n
to_list-drop [] (suc at) n = take_nil n
to_list-drop (x ∷ xs) zero n = refl
to_list-drop (x ∷ xs) (suc at) n = to_list-drop xs at n

items_of-rounds :
    (pk : String) (n round : ℕ) (ms : List Member)
    → Distinct (pubkeys ms)
    → items_of pk (rounds n round ms) ≡ take n (drop round (queue_found (find_member pk ms)))
unfolding rounds
items_of-rounds pk zero round ms d = refl
items_of-rounds pk (suc n) round ms d = rw (
  items_of-append,
  items_of-round_entries pk round ms d,
  items_of-rounds pk n (suc round) ms d,
  to_list-drop,
)

queue_found-le-deepest :
    (pk : String) (ms : List Member) → length (queue_found (find_member pk ms)) ≤ deepest ms
unfolding find_member deepest
queue_found-le-deepest pk [] = omega arith
queue_found-le-deepest pk (m ∷ ms) = ground (arith, queue_found-le-deepest pk ms)

take_enough {ℓ} : {A : Type ℓ} (n : ℕ) (xs : List A) → length xs ≤ n → take n xs ≡ xs
take_enough zero [] h = refl
take_enough zero (x ∷ xs) h = absurd (omega arith)
take_enough (suc n) [] h = refl
take_enough (suc n) (x ∷ xs) h = ap (λ r. x ∷ r) (take_enough n xs (omega arith))

shown_while :
    (b : Bool) (q : List QueueItem) (m : Member)
    → m.queue ≡ q
    → queue_found (if b && has_tracks q then some m else none) ≡ (if b then q else [])
shown_while true [] m e = refl
shown_while true (i ∷ q) m e = e
shown_while false q m e = refl

feeding :
    (o : Option Member)
    → queue_found (elim o [ none ↦ none | some m ↦ if is_feeder m then some m else none ])
      ≡ shown_queue o
feeding none = refl
feeding (some m) = shown_while m.broadcasting m.queue m refl

module _ {s : RoomState} (r : IsRoster s) (pk : String) where
  -- The session queue, filtered by one owner.
  owned_entries : items_of pk (build_session_queue s) ≡ shown_queue (Dict.get pk s.members)
  unfolding build_session_queue
  owned_entries =
      let (d, same) = rotated pk (feeding_members s) s.turn_cursor (feeders-Distinct r pk) in
      let members = rotate (feeding_members s) s.turn_cursor in
      items_of-rounds pk (deepest members) 0 members d
      ∙ take_enough (deepest members) _ (queue_found-le-deepest pk members)
      ∙ ap queue_found
          (same ∙ find_member-keep_if is_feeder pk (members_in_order s) (members-Distinct r pk))
      ∙ rw (in_turn r pk) (feeding (Dict.get pk s.members))

-- What a client reads as a member's queue, off the snapshot that the server projected for it, is
-- that member's queue on the server, in the member's order: the client's own queue always, and of
-- another member the whole queue while that member broadcasts, and nothing otherwise or where the
-- key names no member. The room's members and order hold the same keys, each once, and each member
-- stands under its own key.
pub queue_of-project_snapshot :
    (s : RoomState) (view : RoomView) (pk me : String) (now local_now : ℤ)
    → IsRoster s
    → queue_of (take_snapshot view (project_snapshot s me now) local_now) pk me
      ≡ (if pk == me then Server.queue_of s me else shown_queue (Dict.get pk s.members))
unfolding queue_of take_snapshot project_snapshot my_queue_of session_queue_of
queue_of-project_snapshot s view pk me now local_now r = rw (owned_entries r pk)
