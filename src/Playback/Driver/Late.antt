-- ===== src/Playback/Driver/Late.antt =====
-- apps/desktop/src/lib/playback/driver.ts: readings that come too late.
use spotjam.Prelude.{
  ℕ, ◌≤◌, ◌<◌, eqb, String, Bool, true, false, not, ◌&&◌, ◌||◌, if◌then◌else◌, Option, none, some,
  List, [], ◌∷◌, arith, ◌≡◌, refl,
}
use spotjam.Playback.Observation.{ObserveResult}
use spotjam.Playback.Commands.{Command}
use spotjam.Playback.Mode.{is_ready}
use spotjam.Playback.Driver.{
  at_rest, reading, Driver, Scene, forget, run_tick, tick, end_tick, read, observed, answered,
  attach_player, detach_player, stop, start, bridge_change, poke, set_mode, publish_stuck,
}
use spotjam.Playback.Driver.Steps.{
  Event, reading_came, command_answered, attach_asked, detach_asked, started, stop_asked,
  bridge_changed, poked, step, run,
}

-- Somebody attaches, detaches or stops the driver.
abbrev pub IsTurn : Event → Type 0
IsTurn (attach_asked now) = Unit {0}
IsTurn detach_asked = Unit {0}
IsTurn (stop_asked now) = Unit {0}
IsTurn e = ⊥

-- Everything but a reading that comes in.
abbrev pub IsNoReading : Event → Type 0
IsNoReading (reading_came result scene) = ⊥
IsNoReading e = Unit {0}

abbrev pub NoReading : List Event → Type 0
NoReading [] = Unit {0}
NoReading (e ∷ events) = IsNoReading e × NoReading events

-- Everything that a driver knew is forgotten, and nothing more was sent, but a reading is awaited
-- that belongs to an earlier generation.
record IsLate (sent : List Command) (g : ℕ) (d : Driver) : Type 0 where
  blank : d.prev ≡ none
  quiet : d.sent ≡ sent
  awaits : d.flight ≡ reading g
  old : g < d.generation

run_tick-blank :
    (d : Driver) → d.prev ≡ none → ((run_tick d).prev ≡ none) × ((run_tick d).sent ≡ d.sent)
unfolding run_tick forget
run_tick-blank d e = ground arith

busy-tick : (d : Driver) (g : ℕ) → d.flight ≡ reading g → tick d ≡ record d { dirty = true }
unfolding tick
busy-tick d g e = rw (tick, e)

module _ {sent : List Command} {g : ℕ} where
  if_IsLate :
      {d d' : Driver} (b : Bool)
      → IsLate sent g d
      → IsLate sent g d'
      → IsLate sent g (if b then d else d')
  if_IsLate true v w = v
  if_IsLate false v w = w

  tick-IsLate : (d : Driver) → IsLate sent g d → IsLate sent g (tick d)
  tick-IsLate d v =
      rw (busy-tick d g v.awaits)
        (record { blank = v.blank; quiet = v.quiet; awaits = v.awaits; old = v.old })

  module _ (sort : List String → List String) where
    turn-IsLate :
        (d : Driver) (e : Event)
        → IsTurn e
        → d.sent ≡ sent
        → d.flight ≡ reading g
        → g ≤ d.generation
        → IsLate sent g (step sort d e)
    unfolding step attach_player detach_player stop forget publish_stuck set_mode
    turn-IsLate d (attach_asked now) h quiet awaits past =
        tick-IsLate _
          (record { blank = refl; quiet = quiet; awaits = awaits; old = ground (arith, past) })
    turn-IsLate d detach_asked h quiet awaits past = record {
      blank = refl;
      quiet = quiet;
      awaits = awaits;
      old = ground (arith, past);
    }
    turn-IsLate d (stop_asked now) h quiet awaits past = record {
      blank = refl;
      quiet = quiet;
      awaits = awaits;
      old = ground (arith, past);
    }
    turn-IsLate d (reading_came result scene) h quiet awaits past = absurd h
    turn-IsLate d (command_answered reached now) h quiet awaits past = absurd h
    turn-IsLate d started h quiet awaits past = absurd h
    turn-IsLate d (bridge_changed state) h quiet awaits past = absurd h
    turn-IsLate d poked h quiet awaits past = absurd h

    step-IsLate :
        (d : Driver) (e : Event) → IsNoReading e → IsLate sent g d → IsLate sent g (step sort d e)
    unfolding step answered start bridge_change poke
    step-IsLate d (attach_asked now) h v =
        turn-IsLate d (attach_asked now) tt v.quiet v.awaits (ground (arith, v.old))
    step-IsLate d detach_asked h v =
        turn-IsLate d detach_asked tt v.quiet v.awaits (ground (arith, v.old))
    step-IsLate d (stop_asked now) h v =
        turn-IsLate d (stop_asked now) tt v.quiet v.awaits (ground (arith, v.old))
    step-IsLate d (reading_came result scene) h v = absurd h
    step-IsLate d (command_answered reached now) h v = rw (answered, v.awaits) v
    step-IsLate d started h v =
        if_IsLate d.stopped
          (tick-IsLate (record d { stopped = false })
            (record { blank = v.blank; quiet = v.quiet; awaits = v.awaits; old = v.old }))
          v
    step-IsLate d (bridge_changed state) h v =
        let heard = record d { bridge = some state } in
        let w : IsLate sent g heard = record {
          blank = v.blank;
          quiet = v.quiet;
          awaits = v.awaits;
          old = v.old;
        } in
        if_IsLate d.stopped v
          (if_IsLate (is_ready (some state) && not (is_ready d.bridge)) (tick-IsLate heard w) w)
    step-IsLate d poked h v = if_IsLate d.stopped v (tick-IsLate d v)

    run-IsLate :
        (d : Driver) (events : List Event)
        → NoReading events
        → IsLate sent g d
        → IsLate sent g (run sort d events)
    run-IsLate d [] h v = v
    run-IsLate d (e ∷ events) h v = run-IsLate (step sort d e) events h.1 (step-IsLate d e h.0 v)

    IsLate-observed :
        (d : Driver) (result : Option ObserveResult) (scene : Scene)
        → IsLate sent g d
        → ((observed sort d result scene).prev ≡ none)
          × ((observed sort d result scene).sent ≡ sent)
    unfolding observed end_tick read
    IsLate-observed d result scene v = rw (observed, v.awaits) (rw (read_drops result) ended)
      where
        or_true : (b : Bool) → (b || true) ≡ true
        or_true true = refl
        or_true false = refl

        read_drops : (r : Option ObserveResult) → read sort d g r scene ≡ end_tick d
        read_drops none = refl
        read_drops (some r) =
            let old : eqb g d.generation ≡ false = ground (arith, v.old) in
            let skips : (d.stopped || not (eqb g d.generation)) ≡ true =
              rw old (or_true d.stopped) in
            rw (read, skips)

        ended : ((end_tick d).prev ≡ none) × ((end_tick d).sent ≡ sent)
        ended =
            let rested = record d { flight = at_rest; dirty = false } in
            let (blank, same) = run_tick-blank rested v.blank in
            ground (arith, blank, same, v.blank, v.quiet)

-- When somebody attaches, detaches or stops a driver that awaits a reading begun at its generation
-- or before, the reading is void, whatever else happens until it comes in: when it does, it
-- becomes no baseline, and nothing was sent for it or meanwhile.
pub read_late :
    (sort : List String → List String) (d : Driver) (g : ℕ) (turn : Event) (events : List Event)
    (result : Option ObserveResult) (scene : Scene)
    → d.flight ≡ reading g
    → g ≤ d.generation
    → IsTurn turn
    → NoReading events
    → let late = run sort (step sort d turn) events in
      ((step sort late (reading_came result scene)).prev ≡ none)
      × ((step sort late (reading_came result scene)).sent ≡ d.sent)
unfolding step
read_late sort d g turn events result scene awaits past turns alone =
    IsLate-observed sort (run sort (step sort d turn) events) result scene (
      run-IsLate sort (step sort d turn) events alone
        (turn-IsLate sort d turn turns refl awaits past))
