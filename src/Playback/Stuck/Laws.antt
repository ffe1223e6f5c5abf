-- ===== src/Playback/Stuck/Laws.antt =====
-- apps/desktop/src/lib/playback/stuck.ts: failures in a row, and successes.
use spotjam.Prelude.{
  ◌+◌, leb, ℤ, ◌-ℤ◌, ltb_ℤ, ◌<ℤ◌, ◌≤ℤ◌, String, false, ◌==◌, eq_iff, none, some, List, [], ◌∷◌,
  length, some_of, if◌then◌else◌, arith, ◌≡◌, refl,
}
use spotjam.Prelude.Dict
use spotjam.Prelude.Dict.{get-put, get-delete}
use spotjam.Playback.Commands.{Command, target_of}
use spotjam.Playback.Stuck.{
  StuckState, Failure, live, count_of, record_one, record_expired, record_success, is_stuck,
  stuck_after, stuck_ttl_ms,
}

-- One command expires at each instant of the list, in order.
abbrev pub expirations : StuckState → Command → List ℤ → StuckState
expirations state c [] = state
expirations state c (t ∷ later) = expirations (record_expired state (c ∷ []) t) c later

-- Each instant of the list, and then `now`, is within the minute of the one before.
abbrev pub InARow : ℤ → List ℤ → ℤ → Type 0
InARow last [] now = now -ℤ last <ℤ stuck_ttl_ms
InARow last (t ∷ later) now = (t -ℤ last <ℤ stuck_ttl_ms) × InARow t later now

expirations-count :
    (state : StuckState) (c : Command) (f : Failure) (times : List ℤ) (now : ℤ)
    → Dict.get (target_of c) state ≡ some f
    → InARow f.at times now
    → count_of (live (Dict.get (target_of c) (expirations state c times)) now)
      ≡ f.count + length times
unfolding live record_expired record_one
expirations-count state c f [] now e h = rw e (ground arith)
expirations-count state c f (t ∷ later) now e (h, hs) =
    let next : Failure = record { count = f.count + 1; at = t } in
    let found : Dict.get (target_of c) (record_expired state (c ∷ []) t) ≡ some next =
      rw (record_one, live, e)
        (ground (
          arith,
          get-put (target_of c) (target_of c) next state,
          eq_iff (target_of c) (target_of c),
        )) in
    let rest = expirations-count (record_expired state (c ∷ []) t) c next later now found hs in
    ground (arith, rest)

-- A target with no failure on record that fails at each of some instants, each less than a minute
-- after the one before, is stuck less than a minute after the last exactly when the failures are
-- five or more.
pub is_stuck-expirations :
    (state : StuckState) (c : Command) (first : ℤ) (later : List ℤ) (now : ℤ)
    → Dict.get (target_of c) state ≡ none
    → InARow first later now
    → is_stuck (expirations state c (first ∷ later)) c now
      ≡ leb stuck_after (length (first ∷ later))
unfolding is_stuck record_expired record_one live
is_stuck-expirations state c first later now e h =
    let next : Failure = record { count = 1; at = first } in
    let found : Dict.get (target_of c) (record_expired state (c ∷ []) first) ≡ some next =
      rw (record_one, live, e)
        (ground (
          arith,
          get-put (target_of c) (target_of c) next state,
          eq_iff (target_of c) (target_of c),
        )) in
    let counted =
      expirations-count (record_expired state (c ∷ []) first) c next later now found h in
    ground (arith, counted)

-- A failure a minute old or older no longer counts: its target is not stuck, and the next failure
-- of it is its first.
pub record_expired-lapsed :
    (state : StuckState) (c : Command) (f : Failure) (now : ℤ)
    → Dict.get (target_of c) state ≡ some f
    → stuck_ttl_ms ≤ℤ now -ℤ f.at
    → (is_stuck state c now ≡ false)
      × (Dict.get (target_of c) (record_expired state (c ∷ []) now)
          ≡ some (record { count = 1; at = now }))
unfolding is_stuck record_expired record_one live
record_expired-lapsed state c f now e h =
    let next : Failure = record { count = 1; at = now } in
    let lapsed : ltb_ℤ (now -ℤ f.at) stuck_ttl_ms ≡ false = ground arith in
    (
      rw (e, live, lapsed),
      rw (record_one, live, e, lapsed)
          (ground (
            arith,
            get-put (target_of c) (target_of c) next state,
            eq_iff (target_of c) (target_of c),
          )),
    )

-- After some successes, no failure of their targets is on record, and the failures of every other
-- target are as they were.
pub get-record_success :
    (state : StuckState) (landed : List Command) (target : String)
    → Dict.get target (record_success state landed)
      ≡ (if some_of (λ d. target_of d == target) landed then none else Dict.get target state)
unfolding record_success
get-record_success state [] target = refl
get-record_success state (d ∷ landed) target = ground (
  arith,
  get-record_success (Dict.delete (target_of d) state) landed target,
  get-delete (target_of d) target state,
)
