-- ===== src/Playback/Driver/Tests.antt =====
-- A driver in the middle of a run, and each theorem about the driver at it.
use spotjam.Prelude.{String, pos, true, false, some, none, List, [], ◌∷◌, ◌++◌, arith, ◌≡◌, refl}
use spotjam.Protocol.Types.{null_pointer}
use spotjam.Prelude.{◌-ℤ◌}
use spotjam.Prelude.Dict
use spotjam.Protocol.Pointer.{settle_once}
use spotjam.Playback.Observation.{ObserveResult, observation_from}
use spotjam.Playback.Classify.{classify}
use spotjam.Playback.Stuck.{drop_stuck, is_stuck, live}
use spotjam.Playback.Reconcile.{reconcile, idle_commands}
use spotjam.Playback.Desired.{desired_at}
use spotjam.Playback.Expectations.{pending, prune}
use spotjam.Playback.Commands.{Command}
use spotjam.Playback.Mode.{detached, ready}
use spotjam.Playback.Driver.{
  Driver, Scene, new_driver, reading, commands_of, start, tick, bridge_change, observed, run_tick,
}
use spotjam.Playback.Driver.Steps.{
  Event, started, bridge_changed, reading_came, command_answered, attach_asked, detach_asked, poked,
  stop_asked, step, run,
}
use spotjam.Playback.Driver.Apart.{Apart}
use spotjam.Playback.Driver.Flights.{under_way, run-Apart}
use spotjam.Playback.Driver.Detached.{run_detached}
use spotjam.Playback.Driver.Late.{read_late}

abbrev as_given : List String → List String
as_given texts = texts

abbrev scene : Scene
scene = record { now = pos 1000; pointer = null_pointer; session_queue = []; server_now = pos 1000 }

-- Spotify plays a track of a person's own, with another one queued.
abbrev result : ObserveResult
result = record {
  state = record {
    track_uri = some "u1";
    track_name = none;
    is_paused = false;
    position_ms = pos 5000;
    duration_ms = pos 200000;
  };
  queue_head = some "u2";
}

-- The driver starts, the bridge comes up, and the first reading is of an idle room's player.
abbrev opening : List Event
opening = started ∷ bridge_changed ready ∷ reading_came (some result) scene ∷ []

run-Apart_example : Apart (
    commands_of (run as_given new_driver opening).outstanding
    ++ under_way
        (run as_given new_driver opening).flight
        (run as_given new_driver opening).generation)
run-Apart_example = run-Apart as_given opening

abbrev waiting : Driver
waiting = record new_driver { bridge = some ready; stopped = false; flight = reading 0 }

-- The reading is still awaited while somebody attaches again and the timer is due.
abbrev meanwhile : List Event
meanwhile = poked ∷ attach_asked (pos 950) ∷ bridge_changed ready ∷ []

read_late_example :
    let late = run as_given (step as_given waiting detach_asked) meanwhile in
    ((step as_given late (reading_came (some result) scene)).prev ≡ none)
    × ((step as_given late (reading_came (some result) scene)).sent ≡ [])
read_late_example =
    read_late as_given waiting 0 detach_asked meanwhile (some result) scene refl (omega arith) tt
      (tt, (tt, (tt, tt)))

abbrev let_go : Driver
let_go = record waiting { mode = detached; sent = Command.pause ∷ [] }

abbrev later : List Event
later =
    reading_came (some result) scene
    ∷ poked
    ∷ command_answered true (pos 1200)
    ∷ stop_asked (pos 1300)
    ∷ []

run_detached_example :
    ((run as_given let_go later).mode ≡ detached)
    × ((run as_given let_go later).sent ≡ Command.pause ∷ [])
run_detached_example = run_detached as_given let_go later refl (tt, (tt, (tt, (tt, tt))))

-- The opening leads to a command: the room is idle, and the player is not.
speaks : (run as_given new_driver opening).sent ≡ Command.pause ∷ []
unfolding step start bridge_change observed tick run_tick observation_from ◌-ℤ◌ classify drop_stuck
    reconcile desired_at settle_once idle_commands pending prune is_stuck live Dict.get
speaks = refl
