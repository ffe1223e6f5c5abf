-- ===== src/Server/ReplayGuard/Laws.antt =====
-- apps/server/src/replay-guard.ts: how long a nonce is held, and in how much memory.
use spotjam.Prelude.{
  ℕ, suc, ◌+◌, ◌≤◌, ℤ, max_ℤ, ◌+ℤ◌, ◌≤ℤ◌, String, true, false, eq_iff, some, List, [], ◌∷◌, length,
  Map, arith, ◌≡◌, refl, Bool-cases, inl, inr,
}
use spotjam.Prelude.Dict
use spotjam.Prelude.Dict.{get-put}
use spotjam.Server.ReplayGuard.{ReplayGuard, evict_expired, evict_overflow, remember, admit}

-- One call of `admit`.
pub record Attempt : Type 0 where
  pub nonce : String
  pub now : ℤ
  pub timestamp : ℤ

-- The guard after some calls, whatever they answered.
abbrev pub after : ReplayGuard → List Attempt → ReplayGuard
after guard [] = guard
after guard (a ∷ attempts) = after (admit guard a.nonce a.now a.timestamp).0 attempts

-- Every call came at `last` or before.
abbrev pub AllBy : ℤ → List Attempt → Type 0
AllBy last [] = Unit {0}
AllBy last (a ∷ attempts) = (a.now ≤ℤ last) × AllBy last attempts

-- The nonce is held until `last`, inclusive.
pub record IsHeld (guard : ReplayGuard) (nonce : String) (last : ℤ) : Type 0 where
  pub expires_at : ℤ
  pub found : Dict.get nonce guard.seen ≡ some expires_at
  pub late : last ≤ℤ expires_at

length-evict_expired : (m : Map ℤ) (now : ℤ) → length (evict_expired m now) ≤ length m
unfolding evict_expired
length-evict_expired [] now = omega arith
length-evict_expired ((k, e) ∷ m) now = ground (arith, length-evict_expired m now)

length-put : (k : String) (v : ℤ) (m : Map ℤ) → length (Dict.put k v m) ≤ suc (length m)
unfolding Dict.put
length-put k v [] = omega arith
length-put k v ((j, w) ∷ m) = ground (arith, length-put k v m)

length-evict_overflow : (n : ℕ) (m : Map ℤ) → length (evict_overflow n m) ≤ n
unfolding evict_overflow
length-evict_overflow n [] = omega arith
length-evict_overflow n (x ∷ m) = ground (arith, length-evict_overflow n m)

evict_overflow_small : (n : ℕ) (m : Map ℤ) → length m ≤ n → evict_overflow n m ≡ m
unfolding evict_overflow
evict_overflow_small n [] h = refl
evict_overflow_small n (x ∷ m) h = ground arith

get-evict_expired :
    (k : String) (m : Map ℤ) (now e : ℤ)
    → Dict.get k m ≡ some e
    → now ≤ℤ e
    → Dict.get k (evict_expired m now) ≡ some e
unfolding evict_expired Dict.get
get-evict_expired k [] now e f h = absurd (ground arith)
get-evict_expired k ((j, w) ∷ m) now e f h = ground (arith, get-evict_expired k m now e, eq_iff j k)

-- A guard within its ceiling stays within it, whatever nonce is presented.
pub admit-bound :
    (guard : ReplayGuard) (nonce : String) (now timestamp : ℤ)
    → length guard.seen ≤ guard.max_entries
    → length (admit guard nonce now timestamp).0.seen ≤ guard.max_entries
unfolding admit remember
admit-bound guard nonce now timestamp h = ground (
  arith,
  length-evict_expired guard.seen now,
  length-evict_overflow guard.max_entries
      (Dict.put nonce (max_ℤ now timestamp +ℤ guard.window_ms) (evict_expired guard.seen now)),
)

admit-IsHeld :
    (guard : ReplayGuard) (nonce : String) (last : ℤ) (a : Attempt)
    → IsHeld guard nonce last
    → a.now ≤ℤ last
    → suc (length guard.seen) ≤ guard.max_entries
    → IsHeld (admit guard a.nonce a.now a.timestamp).0 nonce last
unfolding admit remember
admit-IsHeld guard nonce last a held by room =
    let live = evict_expired guard.seen a.now in
    let kept =
      get-evict_expired nonce guard.seen a.now held.expires_at held.found
        (ground (arith, held.late)) in
    elim (Bool-cases (Dict.has a.nonce live)) [
      | inl h ↦
          rw (h, admit) (record { expires_at = held.expires_at; found = kept; late = held.late })
      | inr h ↦
          let expiry = max_ℤ a.now a.timestamp +ℤ guard.window_ms in
          let small = evict_overflow_small guard.max_entries (Dict.put a.nonce expiry live) (
            ground
              (arith, length-put a.nonce expiry live, length-evict_expired guard.seen a.now)) in
          rw (h, admit, remember, small)
            (record {
              expires_at = held.expires_at;
              found = ground (arith, get-put a.nonce nonce expiry live, eq_iff a.nonce nonce, kept);
              late = held.late;
            })
    ]

evict_overflow-shrinks : (n : ℕ) (m : Map ℤ) → length (evict_overflow n m) ≤ length m
unfolding evict_overflow
evict_overflow-shrinks n [] = omega arith
evict_overflow-shrinks n (x ∷ m) = ground (arith, evict_overflow-shrinks n m)

length-admit :
    (guard : ReplayGuard) (nonce : String) (now timestamp : ℤ)
    → length (admit guard nonce now timestamp).0.seen ≤ suc (length guard.seen)
unfolding admit remember
length-admit guard nonce now timestamp =
    let live = evict_expired guard.seen now in
    let expiry = max_ℤ now timestamp +ℤ guard.window_ms in
    let trimmed : length (evict_overflow guard.max_entries (Dict.put nonce expiry live))
        ≤ length (Dict.put nonce expiry live) =
      evict_overflow-shrinks guard.max_entries (Dict.put nonce expiry live) in
    ground (arith, length-evict_expired guard.seen now, length-put nonce expiry live, trimmed)

max_entries-admit :
    (guard : ReplayGuard) (nonce : String) (now timestamp : ℤ)
    → (admit guard nonce now timestamp).0.max_entries ≡ guard.max_entries
unfolding admit remember
max_entries-admit guard nonce now timestamp = ground arith

after-IsHeld :
    (guard : ReplayGuard) (nonce : String) (last : ℤ) (attempts : List Attempt)
    → IsHeld guard nonce last
    → AllBy last attempts
    → length guard.seen + length attempts ≤ guard.max_entries
    → IsHeld (after guard attempts) nonce last
after-IsHeld guard nonce last [] held by room = held
after-IsHeld guard nonce last (a ∷ attempts) held (by, bys) room =
    after-IsHeld (admit guard a.nonce a.now a.timestamp).0 nonce last attempts
      (admit-IsHeld guard nonce last a held by (omega arith)) bys
      (ground (
        arith,
        length-admit guard a.nonce a.now a.timestamp,
        max_entries-admit guard a.nonce a.now a.timestamp,
      ))

IsHeld-refused :
    (guard : ReplayGuard) (nonce : String) (last timestamp : ℤ)
    → IsHeld guard nonce last
    → (admit guard nonce last timestamp).1 ≡ false
unfolding admit
IsHeld-refused guard nonce last timestamp held =
    let kept = get-evict_expired nonce guard.seen last held.expires_at held.found held.late in
    rw (admit, kept)

admitted-IsHeld :
    (guard : ReplayGuard) (nonce : String) (now timestamp last : ℤ)
    → (admit guard nonce now timestamp).1 ≡ true
    → last ≤ℤ max_ℤ now timestamp +ℤ guard.window_ms
    → suc (length guard.seen) ≤ guard.max_entries
    → IsHeld (admit guard nonce now timestamp).0 nonce last
unfolding admit remember
admitted-IsHeld guard nonce now timestamp last fresh by room =
    let live = evict_expired guard.seen now in
    let expiry = max_ℤ now timestamp +ℤ guard.window_ms in
    elim (Bool-cases (Dict.has nonce live)) [
      | inl h ↦ absurd (ground arith)
      | inr h ↦
          let small =
            evict_overflow_small guard.max_entries (Dict.put nonce expiry live)
              (ground (arith, length-put nonce expiry live, length-evict_expired guard.seen now)) in
          rw (h, admit, remember, small)
            (record {
              expires_at = expiry;
              found = ground (arith, get-put nonce nonce expiry live, eq_iff nonce nonce);
              late = by;
            })
    ]

-- A nonce that was admitted is refused from then on, up to and including the later of its arrival
-- and its timestamp plus the window, whatever was presented by then, as long as the guard has room
-- for all of it.
pub admit-replay :
    (guard : ReplayGuard) (nonce : String) (now timestamp : ℤ) (attempts : List Attempt)
    (again stamped : ℤ)
    → (admit guard nonce now timestamp).1 ≡ true
    → AllBy again attempts
    → again ≤ℤ max_ℤ now timestamp +ℤ guard.window_ms
    → length guard.seen + suc (length attempts) ≤ guard.max_entries
    → (admit (after (admit guard nonce now timestamp).0 attempts) nonce again stamped).1 ≡ false
admit-replay guard nonce now timestamp attempts again stamped fresh by soon room =
    IsHeld-refused _ nonce again stamped (
      after-IsHeld (admit guard nonce now timestamp).0 nonce again attempts
        (admitted-IsHeld guard nonce now timestamp again fresh soon (omega arith)) by
        (ground (
          arith,
          length-admit guard nonce now timestamp,
          max_entries-admit guard nonce now timestamp,
        )))
