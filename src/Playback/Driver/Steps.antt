-- ===== src/Playback/Driver/Steps.antt =====
-- apps/desktop/src/lib/playback/driver.ts: whatever can happen to a driver, in any order.
use spotjam.Prelude.{ℤ, String, Bool, Option, List, [], ◌∷◌}
use spotjam.Playback.Observation.{ObserveResult}
use spotjam.Playback.Mode.{BridgeState}
use spotjam.Playback.Driver.{
  Driver, Scene, observed, answered, attach_player, detach_player, start, stop, bridge_change, poke,
}

-- What happens: the bridge answers, somebody attaches or detaches, the driver starts or stops, the
-- bridge's state changes, the timer is due or the room has changed.
pub data Event : Type 0 where
  reading_came : Option ObserveResult → Scene → Event
  command_answered : Bool → ℤ → Event
  attach_asked : ℤ → Event
  detach_asked : Event
  started : Event
  stop_asked : ℤ → Event
  bridge_changed : BridgeState → Event
  poked : Event

module _ (sort : List String → List String) where
  unfoldable pub step : Driver → Event → Driver
  unfolding observed answered attach_player detach_player start stop bridge_change poke
  step d (reading_came result scene) = observed sort d result scene
  step d (command_answered reached now) = answered sort d reached now
  step d (attach_asked now) = attach_player sort d now
  step d detach_asked = detach_player d
  step d started = start d
  step d (stop_asked now) = stop sort d now
  step d (bridge_changed state) = bridge_change d state
  step d poked = poke d

  -- The driver after some events.
  abbrev pub run : Driver → List Event → Driver
  run d [] = d
  run d (e ∷ events) = run (step d e) events

-- Everything but somebody attaching.
abbrev pub IsNoAttach : Event → Type 0
IsNoAttach (attach_asked now) = ⊥
IsNoAttach e = Unit {0}

abbrev pub NoAttach : List Event → Type 0
NoAttach [] = Unit {0}
NoAttach (e ∷ events) = IsNoAttach e × NoAttach events
