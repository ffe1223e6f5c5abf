-- ===== src/Client/Shuffle.antt =====
-- packages/room/src/lib/shuffle.ts: Fisher-Yates on a copy. The randomness is a parameter, whose value
-- at `k` and `n` is the `k`-th draw, scaled to a whole number: `Math.floor(random() * n)`.
use mathlib.Core.List.{Perm}
use mathlib.Core.List.Perm
use spotjam.Prelude.{
  ℕ, zero, suc, none, some, List, [], ◌∷◌, length, get_elem?, set, Option-cases, inl, inr,
}
use spotjam.Prelude.Exchange.{swap-perm}

abbrev pub Draws : Type 0
Draws = ℕ → ℕ → ℕ

module _ {ℓ} {A : Type ℓ} where
  -- One exchange; indices out of bounds are passed over.
  abbrev pub exchanged : List A → ℕ → ℕ → List A
  exchanged next i j = elim (get_elem? next i) [
    | none ↦ next
    | some a ↦ elim (get_elem? next j) [ none ↦ next | some b ↦ set (set next i b) j a ]
  ]

  -- The loop from index `i` down to 1, `k` numbers having been drawn.
  unfoldable pub exchange_down : ℕ → ℕ → Draws → List A → List A
  exchange_down zero k random next = next
  exchange_down (suc i) k random next =
      exchange_down i (suc k) random (exchanged next (suc i) (random k (suc (suc i))))

  -- `shuffled`
  unfoldable pub shuffled : List A → Draws → List A
  unfolding exchange_down
  shuffled [] random = []
  shuffled (x ∷ xs) random = exchange_down (length xs) 0 random (x ∷ xs)

  exchanged-perm : (xs : List A) (i j : ℕ) → Perm (exchanged xs i j) xs
  exchanged-perm xs i j = elim (Option-cases (get_elem? xs i)) [
    | inl e ↦ rw (e, exchanged) (Perm.refl xs)
    | inr (a, e) ↦ elim (Option-cases (get_elem? xs j)) [
      | inl f ↦ rw (e, exchanged, f) (Perm.refl xs)
      | inr (b, f) ↦ rw (e, exchanged, f) (swap-perm xs i j a b e f)
    ]
  ]

  exchange_down-perm :
      (i k : ℕ) (random : Draws) (xs : List A) → Perm (exchange_down i k random xs) xs
  unfolding exchange_down
  exchange_down-perm zero k random xs = Perm.refl xs
  exchange_down-perm (suc i) k random xs =
      Perm.trans (exchange_down-perm i (suc k) random _)
        (exchanged-perm xs (suc i) (random k (suc (suc i))))

  -- Whatever is drawn, a shuffle loses nothing and adds nothing.
  pub shuffled-perm : (xs : List A) (random : Draws) → Perm (shuffled xs random) xs
  unfolding shuffled
  shuffled-perm [] random = Perm.refl []
  shuffled-perm (x ∷ xs) random = exchange_down-perm (length xs) 0 random (x ∷ xs)
