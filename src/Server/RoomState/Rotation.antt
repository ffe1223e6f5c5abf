-- ===== src/Server/RoomState/Rotation.antt =====
-- apps/server/src/room-state.ts: the session queue of a snapshot against the turns of the room.
use spotjam.Prelude.{
  ℕ, zero, suc, ◌+◌, ◌-◌, ◌%◌, ℤ, some, List, [], ◌∷◌, ◌++◌, map, length, get_elem?, take, drop,
  arith, ◌≡◌, refl, ap, inl, inr,
}
use spotjam.Protocol.Types.{QueueItem}
use spotjam.Protocol.Pointer.{follow}
use spotjam.Server.RoomState.Core.{Member, RoomState, rotate, broadcasters_with_tracks}
use spotjam.Server.RoomState.Ops.{advance}
use spotjam.Server.RoomState.View.{
  build_session_queue, rounds, round_entries, deepest, feeding_members, entry_of,
}
use spotjam.Server.RoomState.Membership.{IsRoster}
use spotjam.Server.RoomState.Turns.{advance_cases}

module _ {ℓ} {A : Type ℓ} where
  drop_at :
      (xs : List A) (i : ℕ) (x : A) → get_elem? xs i ≡ some x → drop i xs ≡ x ∷ drop (suc i) xs
  drop_at [] i x h = absurd (ground arith)
  drop_at (y ∷ xs) zero x h = ground arith
  drop_at (y ∷ xs) (suc i) x h = drop_at xs i x h

  rotate_head :
      (xs : List A) (by : ℕ) (x : A)
      → get_elem? xs (by % length xs) ≡ some x
      → (rest : List A) × (rotate xs by ≡ x ∷ rest)
  unfolding rotate
  rotate_head [] by x h = absurd (ground arith)
  rotate_head (y ∷ ys) by x h =
      let n = length (y ∷ ys) in
      let same : (by % n + n) % n ≡ by % n = grind arith in
      (
        drop (suc (by % n)) (y ∷ ys) ++ take (by % n) (y ∷ ys),
        rw (same, drop_at (y ∷ ys) (by % n) x h),
      )

length-map {ℓ κ} :
    {A : Type ℓ} {B : Type κ} (f : A → B) (xs : List A) → length (map f xs) ≡ length xs
length-map f [] = refl
length-map f (x ∷ xs) = ap suc (length-map f xs)

deepest_pos :
    (m : Member) (others : List Member) (head : QueueItem) (rest : List QueueItem)
    → m.queue ≡ head ∷ rest
    → deepest (m ∷ others) ≡ suc (deepest (m ∷ others) - 1)
unfolding deepest
deepest_pos m others head rest e = ground arith

-- The head of the session queue, when the rotation begins with a member who has tracks.
queue_head :
    (m : Member) (others : List Member) (head : QueueItem) (rest : List QueueItem)
    → m.queue ≡ head ∷ rest
    → get_elem? (rounds (deepest (m ∷ others)) 0 (m ∷ others)) 0 ≡ some (entry_of m head)
unfolding rounds round_entries
queue_head m others head rest e = rw (deepest_pos m others head rest e) (ground arith)

-- For a room whose members and order hold the same keys, each once, with each member under its own
-- key, advance points at the head of the session queue that the snapshot shows, from that instant,
-- or at nothing when that queue is empty.
pub advance-session_queue :
    (s : RoomState) (now : ℤ)
    → IsRoster s
    → (advance s now).pointer ≡ follow (get_elem? (build_session_queue s) 0) now
unfolding build_session_queue broadcasters_with_tracks
advance-session_queue s now r = elim (advance_cases s now r) [
  | inl (none_feeds, c) ↦
      rw (c, no_members (feeding_members s) none_feeds) (unfold rotate deepest rounds in refl)
  | inr (f, c) ↦
      let at = rw (length-map (λ (m : Member). m.pubkey) (feeding_members s)) at f.at_cursor in
      let (others, rotated) = rotate_head (feeding_members s) s.turn_cursor f.member at in
      rw (c, rotated, queue_head f.member others f.head f.rest f.queue_is)
]
  where
    no_members : (ms : List Member) → map (λ m. m.pubkey) ms ≡ [] → ms ≡ []
    no_members [] h = refl
    no_members (m ∷ ms) h = cc
