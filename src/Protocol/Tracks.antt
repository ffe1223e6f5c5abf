-- ===== src/Protocol/Tracks.antt =====
-- packages/protocol/src/tracks.ts: appending to a queue, and moving a block within one.
pub mod Append
pub mod Move
use spotjam.Prelude.{
  ℕ, suc, String, Bool, true, false, not, ◌&&◌, ◌==◌, if◌then◌else◌, Option, none, some, List, [],
  ◌∷◌, ◌++◌, map, keep_if, includes, length, take, drop, eqb,
}

-- `list.findIndex(test)`, none for -1
abbrev pub find_index {ℓ} : {A : Type ℓ} → (A → Bool) → List A → Option ℕ
find_index test [] = none
find_index test (x ∷ xs) =
    if test x then some 0 else elim (find_index test xs) [ none ↦ none | some i ↦ some (suc i) ]

abbrev pub is_empty {ℓ} : {A : Type ℓ} → List A → Bool
is_empty [] = true
is_empty (x ∷ xs) = false

module _ {ℓ} {T : Type ℓ} (track_id : T → String) where
  -- The loop over `incoming`, which passes over what `seen` holds.
  unfoldable pub fresh_tracks : List String → List T → List T
  fresh_tracks seen [] = []
  fresh_tracks seen (entry ∷ rest) =
      let skipped = fresh_tracks seen rest in
      let pushed = entry ∷ fresh_tracks (track_id entry ∷ seen) rest in
      if includes (track_id entry) seen then skipped else pushed

  -- `appendUniqueTracks`
  unfoldable pub append_unique_tracks : List T → List T → List T
  unfolding fresh_tracks
  append_unique_tracks existing incoming =
      let fresh = fresh_tracks (map track_id existing) incoming in
      if is_empty fresh then existing else existing ++ fresh

-- A `beforeId` among the moved entries counts as none.
unfoldable pub usable_before : List String → Option String → Option String
usable_before moved none = none
usable_before moved (some before) = if includes before moved then none else some before

module _ {ℓ} {T : Type ℓ} (id : T → String) where
  same_at : List T → List T → Bool
  same_at [] bs = true
  same_at (a ∷ as') [] = false
  same_at (a ∷ as') (b ∷ bs) = if id a == id b then same_at as' bs else false

  -- `sameOrder`
  unfoldable pub same_order : List T → List T → Bool
  unfolding same_at
  same_order a b = eqb (length a) (length b) && same_at a b

  -- Where the block goes among the entries left behind.
  unfoldable pub target_index : List T → Option String → ℕ
  target_index rest none = length rest
  target_index rest (some before) = elim (find_index (λ entry. id entry == before) rest) [
    | none ↦ length rest
    | some i ↦ i
  ]

  -- The entries that move, and the others.
  abbrev pub moved_entries : List T → List String → List T
  moved_entries queue moved_ids = keep_if (λ entry. includes (id entry) moved_ids) queue

  abbrev pub left_behind : List T → List String → List T
  left_behind queue moved_ids = keep_if (λ entry. not (includes (id entry) moved_ids)) queue

  -- `next`: the block spliced in at its index.
  unfoldable pub with_block : List T → List String → Option String → List T
  with_block queue moved_ids before_id =
      let rest = left_behind queue moved_ids in
      let at = target_index rest (usable_before moved_ids before_id) in
      take at rest ++ (moved_entries queue moved_ids ++ drop at rest)

  -- `moveMany`
  unfoldable pub move_many : List T → List String → Option String → List T
  move_many queue moved_ids before_id =
      if is_empty moved_ids
      then queue
      else if is_empty (moved_entries queue moved_ids)
      then queue
      else let next = with_block queue moved_ids before_id in
        if same_order queue next then queue else next
