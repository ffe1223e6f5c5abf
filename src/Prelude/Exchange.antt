-- ===== src/Prelude/Exchange.antt =====
-- Lists of which two elements change places.
use mathlib.Core.List.{Perm}
use mathlib.Core.List.Perm
use spotjam.Prelude.{ℕ, zero, suc, some, List, [], ◌∷◌, get_elem?, set, arith, ◌≡◌, subst}

set-perm {ℓ} :
    {A : Type ℓ} (xs : List A) (j : ℕ) (a b : A)
    → get_elem? xs j ≡ some b
    → Perm (b ∷ set xs j a) (a ∷ xs)
set-perm [] j a b h = absurd (ground arith)
set-perm (x ∷ xs) zero a b h =
    let same : x ≡ b = ground arith in
    subst (λ y. Perm (y ∷ a ∷ xs) (a ∷ x ∷ xs)) same (Perm.swap a x xs)
set-perm (x ∷ xs) (suc j) a b h =
    Perm.trans (Perm.swap x b (set xs j a))
      (Perm.trans (Perm.cons x (set-perm xs j a b h)) (Perm.swap a x xs))

pub swap-perm {ℓ} :
    {A : Type ℓ} (xs : List A) (i j : ℕ) (a b : A)
    → get_elem? xs i ≡ some a
    → get_elem? xs j ≡ some b
    → Perm (set (set xs i b) j a) xs
swap-perm [] i j a b h k = Perm.refl []
swap-perm (x ∷ xs) zero zero a b h k =
    let same : x ≡ a = ground arith in subst (λ y. Perm (y ∷ xs) (x ∷ xs)) same (Perm.refl (x ∷ xs))
swap-perm (x ∷ xs) zero (suc j) a b h k =
    let same : x ≡ a = ground arith in
    subst (λ y. Perm (b ∷ set xs j y) (x ∷ xs)) same (set-perm xs j x b k)
swap-perm (x ∷ xs) (suc i) zero a b h k =
    let same : x ≡ b = ground arith in
    subst (λ y. Perm (a ∷ set xs i y) (x ∷ xs)) same (set-perm xs i x a h)
swap-perm (x ∷ xs) (suc i) (suc j) a b h k = Perm.cons x (swap-perm xs i j a b h k)
