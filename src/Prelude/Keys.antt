-- ===== src/Prelude/Keys.antt =====
-- Lists of strings read as sets, and lists that hold each string once.
use mathlib.Core.Path.{◌≡◌, refl}
use mathlib.Core.Logic.{inl, inr, ◌⊎◌}
use mathlib.Core.Logic.Or
use mathlib.Core.Bool.{Bool, true, false, not, ◌||◌}
use mathlib.Core.List.Perm
use mathlib.Core.List.{
  Nodup, Perm, Nodup-nil, Nodup-cons, map, List, [], ◌∷◌, ◌++◌, Mem, mem-cons_self, mem-cons_of_mem,
  not-mem-nil, mem-cons,
}
use Prim.Native.String.{String}
use native.Mathlib.Omega.{arith}
use text.Mathlib.Text.{◌==◌}
use text.Mathlib.TextEquality.{eq_iff}
use spotjam.Prelude.Tests.{if◌then◌else◌, keep_if, Bool-cases}
use spotjam.Prelude.Dict.{includes}

pub Bool_set : IsSet Bool
Bool_set = hlevel

pub includes-append :
    (s : String) (xs ys : List String) → includes s (xs ++ ys) ≡ includes s xs || includes s ys
includes-append s [] ys = refl
includes-append s (x ∷ xs) ys = ground (arith, includes-append s xs ys)

-- `includes` reads membership.
pub includes→Mem : (s : String) (xs : List String) → includes s xs ≡ true → Mem s xs
includes→Mem s [] h = cc
includes→Mem s (x ∷ xs) h = elim (Bool-cases (x == s)) [
  | inl e ↦ rw ((eq_iff x s).0 e) mem-cons_self
  | inr e ↦ mem-cons_of_mem x (includes→Mem s xs (ground arith))
]

pub Mem→includes : (s : String) (xs : List String) → Mem s xs → includes s xs ≡ true
Mem→includes s [] m = absurd (not-mem-nil m)
Mem→includes s (x ∷ xs) m =
    Or.elim (Bool_set _ _) (mem-cons.0 m) (λ e. ground (arith, eq_iff x s))
      (λ later. ground (arith, Mem→includes s xs later))

-- Each string once.
abbrev pub Distinct : List String → Type 0
Distinct [] = Unit {0}
Distinct (x ∷ xs) = (includes x xs ≡ false) × Distinct xs

pub includes-keep_ne :
    (k s : String) (xs : List String)
    → includes s (keep_if (λ key. not (key == k)) xs) ≡ (if k == s then false else includes s xs)
includes-keep_ne k s [] = ground arith
includes-keep_ne k s (x ∷ xs) =
    ground (arith, includes-keep_ne k s xs, eq_iff k s, eq_iff x k, eq_iff x s)

pub Distinct-keep_ne :
    (k : String) (xs : List String) → Distinct xs → Distinct (keep_if (λ key. not (key == k)) xs)
Distinct-keep_ne k [] d = tt
Distinct-keep_ne k (x ∷ xs) d =
    ground (arith, Distinct-keep_ne k xs d.1, includes-keep_ne k x xs, eq_iff x k, eq_iff k x)

pub Distinct-append_one :
    (k : String) (xs : List String) → includes k xs ≡ false → Distinct xs → Distinct (xs ++ k ∷ [])
Distinct-append_one k [] h d = (refl, tt)
Distinct-append_one k (x ∷ xs) h d =
    ground (arith, Distinct-append_one k xs, includes-append x xs (k ∷ []), eq_iff x k, eq_iff k x)

-- The library's `Nodup` says the same, and is kept by permutations.
pub Distinct→Nodup : (xs : List String) → Distinct xs → Nodup xs
Distinct→Nodup [] d = Nodup-nil
Distinct→Nodup (x ∷ xs) d = Nodup-cons.1 (λ m. cc (Mem→includes x xs m, d.0), Distinct→Nodup xs d.1)

pub Nodup→Distinct : (xs : List String) → Nodup xs → Distinct xs
Nodup→Distinct [] n = tt
Nodup→Distinct (x ∷ xs) n =
    (absent (Bool-cases (includes x xs)), Nodup→Distinct xs (Nodup-cons.0 n).1)
  where
    absent : (includes x xs ≡ true) ⊎ (includes x xs ≡ false) → includes x xs ≡ false
    absent (inl e) = absurd ((Nodup-cons.0 n).0 (includes→Mem x xs e))
    absent (inr e) = e

pub Distinct-perm : (xs ys : List String) → Perm xs ys → Distinct xs → Distinct ys
Distinct-perm xs ys p d = Nodup→Distinct ys (Perm.nodup p (Distinct→Nodup xs d))

pub Distinct-append :
    (xs ys : List String)
    → Distinct xs
    → Distinct ys
    → ((t : String) → includes t ys ≡ true → includes t xs ≡ false)
    → Distinct (xs ++ ys)
Distinct-append [] ys d e apart = e
Distinct-append (x ∷ xs) ys d e apart =
    let rest = Distinct-append xs ys d.1 e (λ t h. ground (arith, apart t h)) in
    ground (arith, rest, includes-append x xs ys, apart x, eq_iff x x)

module _ {ℓ} {A : Type ℓ} (key : A → String) where
  includes-keep_if :
      (P : A → Bool) (t : String) (xs : List A)
      → includes t (map key xs) ≡ false
      → includes t (map key (keep_if P xs)) ≡ false
  includes-keep_if P t [] h = refl
  includes-keep_if P t (x ∷ xs) h = ground (arith, includes-keep_if P t xs)

  -- A filter keeps keys distinct.
  pub Distinct-keep_if :
      (P : A → Bool) (xs : List A) → Distinct (map key xs) → Distinct (map key (keep_if P xs))
  Distinct-keep_if P [] d = tt
  Distinct-keep_if P (x ∷ xs) d =
      ground (arith, Distinct-keep_if P xs d.1, includes-keep_if P (key x) xs d.0)
