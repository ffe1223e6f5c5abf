-- ===== src/Playback/Prune.antt =====
-- apps/desktop/src/lib/playback/expectations.ts: what becomes of each expectation at a reading.
use mathlib.Core.List.{Perm, perm_middle}
use mathlib.Core.List.Perm
use spotjam.Prelude.{
  ℤ, leb_ℤ, Bool, not, ◌&&◌, List, [], ◌∷◌, ◌++◌, append_assoc, keep_if, ◌≡◌, refl, Bool-cases, inl,
  inr,
}
use spotjam.Playback.Observation.{Observation}
use spotjam.Playback.Expectations.{Expectation, prune, holds}

-- The deadline has come.
abbrev pub is_due : Expectation → ℤ → Bool
is_due e now = leb_ℤ e.deadline now

-- prune sorts the expectations in order: landed are those that the reading satisfies, due or not;
-- expired those that it does not satisfy and whose deadline has come; kept the others.
pub prune-keep_if :
    (list : List Expectation) (obs : Observation) (now : ℤ)
    → ((prune list obs now).landed ≡ keep_if (λ e. holds e obs) list)
      × ((prune list obs now).expired ≡ keep_if (λ e. not (holds e obs) && is_due e now) list)
      × ((prune list obs now).kept ≡ keep_if (λ e. not (holds e obs) && not (is_due e now)) list)
unfolding prune
prune-keep_if [] obs now = (refl, refl, refl)
prune-keep_if (e ∷ list) obs now =
    let (l, x, k) = prune-keep_if list obs now in
    elim (Bool-cases (holds e obs)) [
      | inl h ↦ rw h (rw l, x, k)
      | inr h ↦ elim (Bool-cases (leb_ℤ e.deadline now)) [
        | inl d ↦ rw (h, d) (l, rw x, k)
        | inr d ↦ rw (h, d) (l, x, rw k)
      ]
    ]

-- prune loses no expectation and makes none up: those kept, landed and expired are those there
-- were.
pub prune-perm :
    (list : List Expectation) (obs : Observation) (now : ℤ)
    → Perm
        ((prune list obs now).kept ++ ((prune list obs now).landed ++ (prune list obs now).expired))
        list
unfolding prune
prune-perm [] obs now = Perm.refl []
prune-perm (e ∷ list) obs now =
    let rest = prune list obs now in
    let same = prune-perm list obs now in
    elim (Bool-cases (holds e obs)) [
      | inl h ↦
          rw h (Perm.trans (perm_middle rest.kept (rest.landed ++ rest.expired)) (Perm.cons e same))
      | inr h ↦ elim (Bool-cases (leb_ℤ e.deadline now)) [
        | inl d ↦
            rw (h, d)
              (rw (← append_assoc rest.kept rest.landed (e ∷ rest.expired)) (
                Perm.trans (perm_middle (rest.kept ++ rest.landed) rest.expired)
                  (rw (append_assoc rest.kept rest.landed rest.expired) (Perm.cons e same))))
        | inr d ↦ rw (h, d) (Perm.cons e same)
      ]
    ]
