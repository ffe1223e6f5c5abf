-- ===== src/Playback/Driver/Apart.antt =====
-- apps/desktop/src/lib/playback: lists of commands no two of which ask for the same.
use spotjam.Prelude.{
  ℤ, String, Bool, false, ◌||◌, ◌==◌, eq_iff, Option, none, some, List, [], ◌∷◌, ◌++◌, keep_if,
  some_of, arith, ◌≡◌, ◌⊎◌, refl, Bool-cases, inl, inr,
}
use spotjam.Playback.Observation.{Observation}
use spotjam.Playback.Commands.{Command, kind_of, same_kind}
use spotjam.Playback.Expectations.{
  Expectation, Awaited, command, rollover, prune, pending, arriving,
}
use spotjam.Playback.Stuck.{StuckState}
use spotjam.Playback.Desired.{Desired}
use spotjam.Playback.Reconcile.{
  reconcile, idle_commands, transport_commands, queue_commands, start_track, set_play_state,
  correct_drift,
}
use spotjam.Playback.Pending.{is_awaited}
use spotjam.Playback.Driver.{commands_of}

-- Two commands that ask for the same: plays of one track, or two of another kind.
abbrev pub same_slot : Command → Command → Bool
same_slot (Command.play u) (Command.play v) = u == v
same_slot c d = same_kind (kind_of c) (kind_of d)

abbrev pub Apart : List Command → Type 0
Apart [] = Unit {0}
Apart (c ∷ cs) = (some_of (same_slot c) cs ≡ false) × Apart cs

some_of-append {ℓ} :
    {A : Type ℓ} (p : A → Bool) (xs ys : List A)
    → some_of p (xs ++ ys) ≡ some_of p xs || some_of p ys
some_of-append p [] ys = refl
some_of-append p (x ∷ xs) ys = ground (arith, some_of-append p xs ys)

pub Apart-left : (xs ys : List Command) → Apart (xs ++ ys) → Apart xs
Apart-left [] ys a = tt
Apart-left (x ∷ xs) ys (h, a) =
    (ground (arith, some_of-append (same_slot x) xs ys), Apart-left xs ys a)

pub Apart-without :
    (xs : List Command) (y : Command) (ys : List Command) → Apart (xs ++ y ∷ ys) → Apart (xs ++ ys)
Apart-without [] y ys (h, a) = a
Apart-without (x ∷ xs) y ys (h, a) = (
  ground (arith, h, some_of-append (same_slot x) xs (y ∷ ys), some_of-append (same_slot x) xs ys),
  Apart-without xs y ys a,
)

-- None of the second list is taken by the first.
abbrev pub Free : List Command → List Command → Type 0
Free xs [] = Unit {0}
Free xs (y ∷ ys) = (some_of (λ x. same_slot x y) xs ≡ false) × Free xs ys

Free-tail : (x : Command) (xs ys : List Command) → Free (x ∷ xs) ys → Free xs ys
Free-tail x xs [] f = tt
Free-tail x xs (y ∷ ys) (h, f) = (ground (arith, h), Free-tail x xs ys f)

Free-head :
    (x : Command) (xs ys : List Command) → Free (x ∷ xs) ys → some_of (same_slot x) ys ≡ false
Free-head x xs [] f = refl
Free-head x xs (y ∷ ys) (h, f) = ground (arith, h, Free-head x xs ys f)

pub Apart-append : (xs ys : List Command) → Apart xs → Apart ys → Free xs ys → Apart (xs ++ ys)
Apart-append [] ys a b f = b
Apart-append (x ∷ xs) ys (h, a) b f = (
  ground (arith, some_of-append (same_slot x) xs ys, h, Free-head x xs ys f),
  Apart-append xs ys a b (Free-tail x xs ys f),
)

some_of-keep_if {ℓ} :
    {A : Type ℓ} (p q : A → Bool) (xs : List A)
    → some_of p xs ≡ false
    → some_of p (keep_if q xs) ≡ false
some_of-keep_if p q [] h = refl
some_of-keep_if p q (x ∷ xs) h = ground (arith, some_of-keep_if p q xs)

pub Apart-keep_if : (q : Command → Bool) (xs : List Command) → Apart xs → Apart (keep_if q xs)
Apart-keep_if q [] a = tt
Apart-keep_if q (x ∷ xs) (h, a) = elim (Bool-cases (q x)) [
  | inl e ↦ rw e (some_of-keep_if (same_slot x) q xs h, Apart-keep_if q xs a)
  | inr e ↦ rw e (Apart-keep_if q xs a)
]

pub Free-keep_if : (q : Command → Bool) (xs ys : List Command) → Free xs ys → Free xs (keep_if q ys)
Free-keep_if q xs [] f = tt
Free-keep_if q xs (y ∷ ys) (h, f) = elim (Bool-cases (q y)) [
  | inl e ↦ rw e (h, Free-keep_if q xs ys f)
  | inr e ↦ rw e (Free-keep_if q xs ys f)
]

pub commands_of-append :
    (xs ys : List Expectation) → commands_of (xs ++ ys) ≡ commands_of xs ++ commands_of ys
unfolding commands_of
commands_of-append [] ys = refl
commands_of-append (x ∷ xs) ys = ground (arith, commands_of-append xs ys)

pub kept-free :
    (p : Command → Bool) (list : List Expectation) (obs : Observation) (now : ℤ)
    → some_of p (commands_of list) ≡ false
    → some_of p (commands_of (prune list obs now).kept) ≡ false
unfolding commands_of prune
kept-free p [] obs now h = refl
kept-free p (e ∷ list) obs now h = ground (arith, kept-free p list obs now)

pub taken-awaited :
    (outstanding : List Expectation) (c : Command)
    → is_awaited outstanding c ≡ false
    → some_of (λ x. same_slot x c) (commands_of outstanding) ≡ false
unfolding commands_of pending arriving
taken-awaited [] c h = refl
taken-awaited (e ∷ rest) (Command.play u) h =
    ground (arith, taken-awaited rest (Command.play u), eq_iff u u)
taken-awaited (e ∷ rest) c h = ground (arith, taken-awaited rest c)

pub reconcile-Apart :
    (desired : Desired) (obs : Observation) (outstanding : List Expectation) (stuck : StuckState)
    (now : ℤ)
    → Apart (reconcile desired obs outstanding stuck now)
unfolding reconcile idle_commands transport_commands queue_commands start_track set_play_state
    correct_drift
reconcile-Apart Desired.idle obs outstanding stuck now = ground arith
reconcile-Apart (Desired.play uri p d paused none) obs outstanding stuck now = ground arith
reconcile-Apart (Desired.play uri p d paused (some next)) obs outstanding stuck now = ground arith

Awaited-cases :
    (w : Awaited)
    → ((c : Command) × (w ≡ command c))
      ⊎ ((uri : Option String) × (from : Option String) × (w ≡ rollover uri from))
Awaited-cases (command c) = inl (c, refl)
Awaited-cases (rollover uri from) = inr (uri, from, refl)

pub kept-Apart :
    (list : List Expectation) (obs : Observation) (now : ℤ)
    → Apart (commands_of list)
    → Apart (commands_of (prune list obs now).kept)
unfolding commands_of prune
kept-Apart [] obs now a = tt
kept-Apart (e ∷ list) obs now a = elim (Awaited-cases e.what) [
  | inr (uri, from, w) ↦ let rest = kept-Apart list obs now (rw w at a) in ground (arith, w, rest)
  | inl (c, w) ↦
      let (alone, others) = rw w at a in
      let rest = kept-Apart list obs now others in
      ground (arith, w, rest, kept-free (same_slot c) list obs now alone)
]

pub Free-awaited :
    (outstanding : List Expectation) (cs : List Command)
    → some_of (is_awaited outstanding) cs ≡ false
    → Free (commands_of outstanding) cs
Free-awaited outstanding [] h = tt
Free-awaited outstanding (c ∷ cs) h =
    (taken-awaited outstanding c (ground arith), Free-awaited outstanding cs (ground arith))
