-- ===== src/Playback/Reconcile.antt =====
-- apps/desktop/src/lib/playback/reconcile.ts: the commands that close the gap.
use spotjam.Prelude.{
  ℤ, pos, ◌-ℤ◌, ltb_ℤ, leb_ℤ, abs_ℤ, String, Bool, true, false, not, ◌&&◌, ◌||◌, if◌then◌else◌,
  Option, none, some, is_none, List, [], ◌∷◌, ◌++◌,
}
use spotjam.Playback.Observation.{Observation, is_ad}
use spotjam.Playback.Commands.{
  Command, play, seek, pause, resume, set_next, clear_queue, pause_kind, resume_kind, seek_kind,
  set_next_kind, clear_queue_kind,
}
use spotjam.Playback.Expectations.{Expectation, pending, arriving, same_uri}
use spotjam.Playback.Stuck.{StuckState, is_stuck}
use spotjam.Playback.Desired.{Desired}

abbrev pub max_drift_ms : ℤ
max_drift_ms = pos 3000

abbrev pub same_bool : Bool → Bool → Bool
same_bool true b = b
same_bool false b = not b

-- `idleCommands`
unfoldable pub idle_commands : Observation → List Expectation → List Command
idle_commands obs outstanding =
    (if not obs.is_paused && not (pending outstanding pause_kind) then pause ∷ [] else [])
    ++ (if not (is_none obs.queue_head) && not (pending outstanding clear_queue_kind)
        then clear_queue ∷ []
        else [])

-- `startTrack`
unfoldable pub start_track : String → List Expectation → StuckState → ℤ → List Command
start_track uri outstanding stuck now =
    if arriving outstanding (some uri)
    then []
    else if is_stuck stuck (play uri) now
    then []
    else play uri ∷ []

-- `setPlayState`
unfoldable pub set_play_state : Bool → List Expectation → List Command
set_play_state paused outstanding =
    if pending outstanding pause_kind || pending outstanding resume_kind
    then []
    else (if paused then pause else resume) ∷ []

-- `offTheClock`
unfoldable pub off_the_clock : ℤ → Observation → Bool
off_the_clock position_ms obs = ltb_ℤ max_drift_ms (abs_ℤ (obs.position_ms -ℤ position_ms))

-- `correctDrift`
unfoldable pub correct_drift : ℤ → Observation → List Expectation → List Command
correct_drift position_ms obs outstanding =
    if not (off_the_clock position_ms obs)
    then []
    else if not obs.is_paused && leb_ℤ obs.position_ms (pos 0)
    then []
    else if pending outstanding seek_kind
    then []
    else seek position_ms ∷ []

-- `transportCommands`
unfoldable pub transport_commands :
    String → ℤ → Bool → Observation → List Expectation → StuckState → ℤ → List Command
transport_commands uri position_ms paused obs outstanding stuck now =
    if is_ad obs.track_uri
    then []
    else if not (same_uri obs.track_uri (some uri))
    then start_track uri outstanding stuck now
    else if not (same_bool obs.is_paused paused)
    then set_play_state paused outstanding
    else correct_drift position_ms obs outstanding

abbrev pub fill_slot : Option String → List Command
fill_slot none = clear_queue ∷ []
fill_slot (some uri) = set_next uri ∷ []

-- `queueCommands`
unfoldable pub queue_commands : Option String → Observation → List Expectation → List Command
queue_commands next_uri obs outstanding =
    if same_uri obs.queue_head next_uri
    then []
    else if arriving outstanding obs.queue_head
    then []
    else if pending outstanding set_next_kind || pending outstanding clear_queue_kind
    then []
    else fill_slot next_uri

-- `reconcile`
unfoldable pub reconcile : Desired → Observation → List Expectation → StuckState → ℤ → List Command
reconcile Desired.idle obs outstanding stuck now = idle_commands obs outstanding
reconcile (Desired.play uri position_ms duration_ms paused next_uri) obs outstanding stuck now =
    transport_commands uri position_ms paused obs outstanding stuck now
    ++ queue_commands next_uri obs outstanding
