-- ===== src/Playback/Pending.antt =====
-- apps/desktop/src/lib/playback: commands against the expectations that are outstanding.
use spotjam.Prelude.{
  ℤ, String, Bool, false, Option, none, some, List, [], ◌∷◌, ◌++◌, some_of, arith, ◌≡◌,
}
use spotjam.Playback.Observation.{Observation}
use spotjam.Playback.Commands.{Command, kind_of}
use spotjam.Playback.Expectations.{Expectation, pending, arriving}
use spotjam.Playback.Stuck.{StuckState}
use spotjam.Playback.Desired.{Desired}
use spotjam.Playback.Reconcile.{
  reconcile, idle_commands, transport_commands, queue_commands, start_track, set_play_state,
  correct_drift,
}

-- What an outstanding expectation says of a command: its kind is pending, or for a play, its track
-- is on the way.
abbrev pub is_awaited : List Expectation → Command → Bool
is_awaited outstanding (Command.play uri) = arriving outstanding (some uri)
is_awaited outstanding c = pending outstanding (kind_of c)

abbrev NoneAwaited : List Expectation → List Command → Type 0
NoneAwaited outstanding commands = some_of (is_awaited outstanding) commands ≡ false

none-append :
    (outstanding : List Expectation) (xs ys : List Command)
    → NoneAwaited outstanding xs
    → NoneAwaited outstanding ys
    → NoneAwaited outstanding (xs ++ ys)
none-append outstanding [] ys h k = k
none-append outstanding (x ∷ xs) ys h k = ground (arith, none-append outstanding xs ys)

transport_none :
    (uri : String) (position_ms : ℤ) (paused : Bool) (obs : Observation)
    (outstanding : List Expectation) (stuck : StuckState) (now : ℤ)
    → NoneAwaited outstanding (transport_commands uri position_ms paused obs outstanding stuck now)
unfolding transport_commands start_track set_play_state correct_drift
transport_none uri position_ms paused obs outstanding stuck now = ground arith

queue_none :
    (next : Option String) (obs : Observation) (outstanding : List Expectation)
    → NoneAwaited outstanding (queue_commands next obs outstanding)
unfolding queue_commands
queue_none none obs outstanding = ground arith
queue_none (some uri) obs outstanding = ground arith

idle_none :
    (obs : Observation) (outstanding : List Expectation)
    → NoneAwaited outstanding (idle_commands obs outstanding)
unfolding idle_commands
idle_none obs outstanding = ground arith

-- reconcile never issues a command that an outstanding expectation already awaits: a pause,
-- resume, seek or command to the queue whose kind is pending, or a play of a track on its way.
pub reconcile-NoneAwaited :
    (desired : Desired) (obs : Observation) (outstanding : List Expectation) (stuck : StuckState)
    (now : ℤ)
    → some_of (is_awaited outstanding) (reconcile desired obs outstanding stuck now) ≡ false
unfolding reconcile
reconcile-NoneAwaited Desired.idle obs outstanding stuck now = idle_none obs outstanding
reconcile-NoneAwaited (Desired.play uri p d paused next) obs outstanding stuck now =
    none-append outstanding (transport_commands uri p paused obs outstanding stuck now) _
      (transport_none uri p paused obs outstanding stuck now) (queue_none next obs outstanding)
