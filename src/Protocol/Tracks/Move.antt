-- ===== src/Protocol/Tracks/Move.antt =====
-- packages/protocol/src/tracks.ts: where `moveMany` puts the block.
use mathlib.Core.List.{Perm, perm_middle, perm_append_comm}
use mathlib.Core.List.Perm
use spotjam.Prelude.{
  ℕ, suc, String, Bool, true, false, not, ◌==◌, eq_iff, Option, none, some, List, [], ◌∷◌, ◌++◌,
  map, keep_if, includes, length, take, drop, take-append-drop, take_all, drop_all, eqb, arith, ◌≡◌,
  refl, sym, ap, ◌∙◌, append-nil, append_assoc, some_of, Bool-cases, Option-cases, inl, inr, ◌⊎◌,
}
use spotjam.Protocol.Tracks.{
  move_many, with_block, moved_entries, left_behind, same_order, same_at, target_index,
  usable_before, find_index, is_empty,
}

module _ {ℓ} {A : Type ℓ} (P : A → Bool) where
  keep_if-append : (xs ys : List A) → keep_if P (xs ++ ys) ≡ keep_if P xs ++ keep_if P ys
  keep_if-append [] ys = refl
  keep_if-append (x ∷ xs) ys = ground (arith, keep_if-append xs ys)

  keep_if_twice : (xs : List A) → keep_if P (keep_if P xs) ≡ keep_if P xs
  keep_if_twice [] = refl
  keep_if_twice (x ∷ xs) = ground (arith, keep_if_twice xs)

  keep_if-not : (xs : List A) → keep_if P (keep_if (λ x. not (P x)) xs) ≡ []
  keep_if-not [] = refl
  keep_if-not (x ∷ xs) = ground (arith, keep_if-not xs)

  keep_not_if : (xs : List A) → keep_if (λ x. not (P x)) (keep_if P xs) ≡ []
  keep_not_if [] = refl
  keep_not_if (x ∷ xs) = ground (arith, keep_not_if xs)

  split-perm : (xs : List A) → Perm (keep_if (λ x. not (P x)) xs ++ keep_if P xs) xs
  split-perm [] = Perm.refl []
  split-perm (x ∷ xs) = elim (Bool-cases (P x)) [
    | inl p ↦ rw p (
        Perm.trans (perm_middle (keep_if (λ x. not (P x)) xs) (keep_if P xs))
          (Perm.cons x (split-perm xs)))
    | inr p ↦ rw p (Perm.cons x (split-perm xs))
  ]

  append_nil_parts : (xs ys : List A) → xs ++ ys ≡ [] → (xs ≡ []) × (ys ≡ [])
  append_nil_parts [] ys h = (refl, h)
  append_nil_parts (x ∷ xs) ys h = cc

  keep_if_parts :
      (n : ℕ) (xs : List A)
      → keep_if P xs ≡ []
      → (keep_if P (take n xs) ≡ []) × (keep_if P (drop n xs) ≡ [])
  keep_if_parts n xs h =
      append_nil_parts _ _
        (sym (keep_if-append (take n xs) (drop n xs)) ∙ rw (take-append-drop n xs) h)

pub insert-perm {ℓ} :
    {A : Type ℓ} (pre post block : List A) → Perm (pre ++ (block ++ post)) ((pre ++ post) ++ block)
insert-perm pre post block =
    rw (append_assoc pre post block) (Perm.append_left pre (perm_append_comm block post))

find_index_parts {ℓ} :
    {A : Type ℓ} (test : A → Bool) (xs : List A) (i : ℕ)
    → find_index test xs ≡ some i
    → (x : A) × (post : List A) × (drop i xs ≡ x ∷ post)
      × (test x ≡ true)
      × (some_of test (take i xs) ≡ false)
find_index_parts test [] i h = cc
find_index_parts test (x ∷ xs) i h = elim (Bool-cases (test x)) [
  | inl t ↦ rw (the_zero i h t) (x, xs, refl, t, refl)
  | inr t ↦ elim (Option-cases (find_index test xs)) [
    | inl e ↦ absurd (ground arith)
    | inr (j, e) ↦
        let (y, post, d, p, none_before) = find_index_parts test xs j e in
        rw (the_suc i j h t e) (y, post, d, p, ground arith)
  ]
]
  where
    the_zero : (i : ℕ) → find_index test (x ∷ xs) ≡ some i → test x ≡ true → i ≡ 0
    the_zero i h t = ground arith

    the_suc :
        (i j : ℕ)
        → find_index test (x ∷ xs) ≡ some i
        → test x ≡ false
        → find_index test xs ≡ some j
        → i ≡ suc j
    the_suc i j h t e = ground arith

find_index-none {ℓ} :
    {A : Type ℓ} (test : A → Bool) (xs : List A)
    → find_index test xs ≡ none
    → some_of test xs ≡ false
find_index-none test [] h = refl
find_index-none test (x ∷ xs) h = ground (arith, find_index-none test xs)

find_index_absent {ℓ} :
    {A : Type ℓ} (test : A → Bool) (xs : List A)
    → some_of test xs ≡ false
    → find_index test xs ≡ none
find_index_absent test [] h = refl
find_index_absent test (x ∷ xs) h = ground (arith, find_index_absent test xs)

module _ {ℓ} {T : Type ℓ} (id : T → String) where
  -- Where an entry of that id stands among the others.
  pub record Landing (xs : List T) (before : String) : Type ℓ where
    pub pre : List T
    pub target : T
    pub post : List T
    pub splits : xs ≡ pre ++ target ∷ post
    pub named : id target ≡ before
    pub first : some_of (λ entry. id entry == before) pre ≡ false

  same_at-map :
      (xs ys : List T)
      → eqb (length xs) (length ys) ≡ true
      → same_at id xs ys ≡ true
      → map id xs ≡ map id ys
  unfolding same_at
  same_at-map [] [] h k = refl
  same_at-map [] (y ∷ ys) h k = absurd (ground arith)
  same_at-map (x ∷ xs) [] h k = absurd (ground arith)
  same_at-map (x ∷ xs) (y ∷ ys) h k = ground (arith, same_at-map xs ys, eq_iff (id x) (id y))

  same_order-map : (xs ys : List T) → same_order id xs ys ≡ true → map id xs ≡ map id ys
  unfolding same_order
  same_order-map xs ys h = same_at-map xs ys (ground arith) (ground arith)

  module _ (queue : List T) (ids : List String) (before : Option String) where
    -- The queue with the block put in, or the queue itself, when nothing moves or when no id would
    -- change its place.
    move_many_cases :
        (move_many id queue ids before ≡ with_block id queue ids before)
        ⊎ ((move_many id queue ids before ≡ queue)
            × ((is_empty ids ≡ true)
                ⊎ ((is_empty (moved_entries id queue ids) ≡ true)
                    ⊎ (map id queue ≡ map id (with_block id queue ids before)))))
    unfolding move_many
    move_many_cases = elim (Bool-cases (is_empty ids)) [
      | inl e ↦ inr (rw e, inl e)
      | inr e ↦ elim (Bool-cases (is_empty (moved_entries id queue ids))) [
        | inl f ↦ inr (rw (e, f), inr (inl f))
        | inr f ↦ elim (Bool-cases (same_order id queue (with_block id queue ids before))) [
          | inl g ↦ inr (rw (e, f, g), inr (inr (same_order-map _ _ g)))
          | inr g ↦ inl (rw (e, f, g))
        ]
      ]
    ]

    with_block-perm : Perm (with_block id queue ids before) queue
    unfolding with_block
    with_block-perm =
        let rest = left_behind id queue ids in
        let at = target_index id rest (usable_before ids before) in
        let moved = moved_entries id queue ids in
        Perm.trans (insert-perm (take at rest) (drop at rest) moved)
          (rw (take-append-drop at rest) (split-perm (λ entry. includes (id entry) ids) queue))

    -- A move loses no entry of the queue and adds none.
    pub move_many-perm : Perm (move_many id queue ids before) queue
    move_many-perm = elim move_many_cases [
      | inl e ↦ rw e with_block-perm
      | inr (e, _) ↦ rw e (Perm.refl queue)
    ]

    with_block-order :
        (moved_entries id (with_block id queue ids before) ids ≡ moved_entries id queue ids)
        × (left_behind id (with_block id queue ids before) ids ≡ left_behind id queue ids)
    unfolding with_block
    with_block-order =
        let P : T → Bool = λ entry. includes (id entry) ids in
        let N : T → Bool = λ entry. not (includes (id entry) ids) in
        let rest = left_behind id queue ids in
        let moved = moved_entries id queue ids in
        let at = target_index id rest (usable_before ids before) in
        let (no_pre, no_post) = keep_if_parts P at rest (keep_if-not P queue) in
        (
          keep_if-append P (take at rest) (moved ++ drop at rest)
              ∙ rw (no_pre, keep_if-append P moved (drop at rest), no_post, append-nil)
                  (keep_if_twice P queue),
          keep_if-append N (take at rest) (moved ++ drop at rest)
              ∙ rw (keep_if-append N moved (drop at rest), keep_not_if P queue)
                  (sym (keep_if-append N (take at rest) (drop at rest))
                    ∙ rw (take-append-drop at rest) (keep_if_twice N queue)),
        )

    -- In a move, the entries that move keep their order among themselves, and so do the others.
    pub move_many-order :
        (moved_entries id (move_many id queue ids before) ids ≡ moved_entries id queue ids)
        × (left_behind id (move_many id queue ids before) ids ≡ left_behind id queue ids)
    move_many-order = elim move_many_cases [
      | inl e ↦ rw e with_block-order
      | inr (e, _) ↦ rw e (refl, refl)
    ]

    move_many-map :
        is_empty ids ≡ false
        → is_empty (moved_entries id queue ids) ≡ false
        → map id (move_many id queue ids before) ≡ map id (with_block id queue ids before)
    move_many-map h k = elim move_many_cases [
      | inl e ↦ rw e
      | inr (e, inl f) ↦ absurd (cc)
      | inr (e, inr (inl f)) ↦ absurd (cc)
      | inr (e, inr (inr f)) ↦ rw e f
    ]

    -- When some ids are given and name an entry of the queue, and the entry to land before is not
    -- among them and is in the queue, moveMany puts the block right before the first entry of that
    -- id, and keeps the others in place: so reads the list of ids.
    pub move_many-before :
        (b : String)
        → before ≡ some b
        → includes b ids ≡ false
        → is_empty ids ≡ false
        → is_empty (moved_entries id queue ids) ≡ false
        → some_of (λ entry. id entry == b) (left_behind id queue ids) ≡ true
        → (at : Landing (left_behind id queue ids) b) × (map id (move_many id queue ids before)
            ≡ map id (at.pre ++ (moved_entries id queue ids ++ at.target ∷ at.post)))
    unfolding with_block usable_before target_index
    move_many-before b e out some_ids some_moved there =
        elim (Option-cases (find_index (λ entry. id entry == b) (left_behind id queue ids))) [
          | inl f ↦
              let absent = find_index-none (λ entry. id entry == b) (left_behind id queue ids) f in
              absurd (ground arith)
          | inr (i, f) ↦
              let rest = left_behind id queue ids in
              let (x, post, d, t, none_before) =
                find_index_parts (λ entry. id entry == b) rest i f in
              (
                record {
                  pre = take i rest;
                  target = x;
                  post = post;
                  splits = sym (take-append-drop i rest) ∙ rw d;
                  named = (eq_iff (id x) b).0 t;
                  first = none_before;
                },
                move_many-map some_ids some_moved ∙ ap (map id) (block_at e out f d),
              )
        ]
      where
        block_at :
            {i : ℕ} {x : T} {post : List T}
            → before ≡ some b
            → includes b ids ≡ false
            → find_index (λ entry. id entry == b) (left_behind id queue ids) ≡ some i
            → drop i (left_behind id queue ids) ≡ x ∷ post
            → with_block id queue ids before
              ≡ take i (left_behind id queue ids) ++ (moved_entries id queue ids ++ x ∷ post)
        block_at {i} e out f d =
            let at : target_index id (left_behind id queue ids) (usable_before ids before) ≡ i =
              rw (e, usable_before, out, target_index, f) in
            rw at (rw d)

    -- When some ids are given and name an entry of the queue, and there is no entry to land
    -- before, or it moves too, or it is not there, moveMany puts the block at the end: so reads
    -- the list of ids.
    pub move_many-end :
        is_empty ids ≡ false
        → is_empty (moved_entries id queue ids) ≡ false
        → ((b : String)
            → before ≡ some b
            → includes b ids ≡ false
            → some_of (λ entry. id entry == b) (left_behind id queue ids) ≡ false)
        → map id (move_many id queue ids before)
          ≡ map id (left_behind id queue ids ++ moved_entries id queue ids)
    unfolding with_block usable_before target_index
    move_many-end some_ids some_moved lost =
        move_many-map some_ids some_moved ∙ ap (map id) (block_at (at_end before lost))
      where
        at_end :
            (c : Option String)
            → ((b : String)
                → c ≡ some b
                → includes b ids ≡ false
                → some_of (λ entry. id entry == b) (left_behind id queue ids) ≡ false)
            → target_index id (left_behind id queue ids) (usable_before ids c)
              ≡ length (left_behind id queue ids)
        at_end none lost = refl
        at_end (some b) lost = elim (Bool-cases (includes b ids)) [
          | inl e ↦ rw (usable_before, e, target_index)
          | inr e ↦
              let absent =
                find_index_absent (λ entry. id entry == b) (left_behind id queue ids)
                  (lost b refl e) in
              rw (usable_before, e, target_index, absent)
        ]

        block_at :
            target_index id (left_behind id queue ids) (usable_before ids before)
              ≡ length (left_behind id queue ids)
            → with_block id queue ids before
              ≡ left_behind id queue ids ++ moved_entries id queue ids
        block_at e = rw (
          e,
          take_all (left_behind id queue ids),
          drop_all (left_behind id queue ids),
          append-nil,
        )
