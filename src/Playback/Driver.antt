-- ===== src/Playback/Driver.antt =====
-- apps/desktop/src/lib/playback/driver.ts: the loop that reads Spotify, decides and commands. A tick
-- awaits a reading, and then each command: between these the state can change, so a tick is cut at
-- its awaits, and `flight` is where it stands. The bridge's answers, the clock and the room are given
-- to the step that takes them up. Commands that go to the bridge are a log. How texts are sorted is
-- the runtime's, and a parameter.
pub mod Steps
pub mod Apart
pub mod Flights
pub mod Detached
pub mod Late
mod Tests
use spotjam.Prelude.{
  ℕ, suc, ◌+◌, eqb, ℤ, pos, ◌-ℤ◌, ltb_ℤ, leb_ℤ, String, Bool, true, false, not, ◌&&◌, ◌||◌, ◌==◌,
  if◌then◌else◌, Option, none, some, is_none, List, [], ◌∷◌, ◌++◌,
}
use spotjam.Protocol.Types.{PlaybackPointer, SessionEntry}
use spotjam.Protocol.Tracks.{is_empty}
use spotjam.Playback.Observation.{Observation, ObserveResult, observation_from}
use spotjam.Playback.Commands.{Command}
use spotjam.Playback.Expectations.{
  Expectation, Awaited, command, rollover, expectation_for, rollover_for, rollover_pending, Pruned,
  prune, same_uri,
}
use spotjam.Playback.Stuck.{
  StuckState, fresh_stuck, record_expired, record_success, drop_stuck, stuck_targets,
}
use spotjam.Playback.Mode.{
  Mode, attached, detached, ModeEvent, attach, detach, user_took_player, next_mode, BridgeState,
  ready, is_ready,
}
use spotjam.Playback.Desired.{desired_at}
use spotjam.Playback.Reconcile.{reconcile}
use spotjam.Playback.Classify.{Verdict, ok, user, classify}

abbrev pub rollover_window_ms : ℤ
rollover_window_ms = pos 2000

-- Where the tick that runs is awaiting: a reading, or the answer to a command, with the commands that
-- are still to go. The number is the generation that it started in.
pub data Flight : Type 0 where
  at_rest : Flight
  reading : ℕ → Flight
  sending : ℕ → Observation → Command → List Command → Flight

-- `PlaybackDriver`
pub record Driver : Type 0 where
  pub mode : Mode
  pub prev : Option Observation
  pub outstanding : List Expectation
  pub generation : ℕ
  pub stuck : StuckState
  pub last_stuck : List String
  pub last_item_id : Option String
  pub rollover_from : Option String
  pub bridge : Option BridgeState
  pub flight : Flight
  pub dirty : Bool
  pub stopped : Bool
  pub sent : List Command

-- A driver before `start`.
abbrev pub new_driver : Driver
new_driver = record {
  mode = attached;
  prev = none;
  outstanding = [];
  generation = 0;
  stuck = fresh_stuck;
  last_stuck = [];
  last_item_id = none;
  rollover_from = none;
  bridge = none;
  flight = at_rest;
  dirty = false;
  stopped = true;
  sent = [];
}

-- What a step reads of the world: the local clock, the room, and the room's clock.
pub record Scene : Type 0 where
  pub now : ℤ
  pub pointer : PlaybackPointer
  pub session_queue : List SessionEntry
  pub server_now : ℤ

-- `forget`
unfoldable pub forget : Driver → Driver
forget d = record d {
  prev = none;
  rollover_from = none;
  outstanding = [];
  generation = d.generation + 1;
}

-- `setMode`
unfoldable pub set_mode : Driver → ModeEvent → Driver
unfolding next_mode
set_mode d event = record d { mode = next_mode d.mode event }

-- `ticking`
abbrev pub is_ticking : Flight → Bool
is_ticking at_rest = false
is_ticking f = true

-- `runTick`, up to its first await. Without the bridge it ends at once, and so does the tick that was
-- asked for meanwhile.
unfoldable pub run_tick : Driver → Driver
unfolding forget
run_tick d =
    let asked = record d { flight = reading d.generation } in
    let idle = record (forget d) { flight = at_rest } in
    let idle_again = record (forget idle) { dirty = false } in
    if is_ready d.bridge then asked else if d.dirty && not d.stopped then idle_again else idle

-- `tick`
unfoldable pub tick : Driver → Driver
unfolding run_tick
tick d = if is_ticking d.flight then record d { dirty = true } else run_tick d

-- The end of a tick, and the one that was asked for meanwhile.
unfoldable pub end_tick : Driver → Driver
unfolding run_tick
end_tick d =
    let rested = record d { flight = at_rest } in
    if d.dirty && not d.stopped then run_tick (record rested { dirty = false }) else rested

-- The end of `runTick`: the reading is the new baseline, if it still describes the run it was taken in.
unfoldable pub keep_reading : Driver → ℕ → Observation → Driver
unfolding end_tick
keep_reading d generation obs =
    end_tick (if eqb generation d.generation then record d { prev = some obs } else d)

-- `this.stopped || this.mode_ !== "attached" || generation !== this.generation`
abbrev pub is_attached : Mode → Bool
is_attached attached = true
is_attached detached = false

abbrev pub may_send : Driver → ℕ → Bool
may_send d generation = not d.stopped && (is_attached d.mode && eqb generation d.generation)

-- The loop of `drive` over the commands, up to the await of the next one.
unfoldable pub next_command : Driver → ℕ → Observation → List Command → Driver
unfolding keep_reading
next_command d generation obs [] = keep_reading d generation obs
next_command d generation obs (c ∷ rest) =
    if may_send d generation
    then record d { flight = sending generation obs c rest; sent = d.sent ++ c ∷ [] }
    else keep_reading d generation obs

-- The memo of `watchForRollover`, cleared once the player is on another track.
abbrev pub rollover_memo : Driver → Observation → Option String
rollover_memo d obs = if same_uri obs.track_uri d.rollover_from then d.rollover_from else none

-- Where `watchForRollover` returns early.
abbrev pub needs_no_rollover : Driver → Observation → Bool
needs_no_rollover d obs =
    not (is_none (rollover_memo d obs))
    || ((obs.is_paused || leb_ℤ obs.duration_ms (pos 0))
        || (ltb_ℤ obs.position_ms (obs.duration_ms -ℤ rollover_window_ms)
            || rollover_pending d.outstanding obs.track_uri))

-- `watchForRollover`
unfoldable pub watch_for_rollover : Driver → Observation → ℤ → Driver
watch_for_rollover d obs now =
    if needs_no_rollover d obs then record d { rollover_from = rollover_memo d obs } else record d {
      rollover_from = obs.track_uri;
      outstanding = d.outstanding ++ rollover_for obs now ∷ [];
    }

-- `commandsOf`
unfoldable pub commands_of : List Expectation → List Command
commands_of [] = []
commands_of (e ∷ rest) =
    let others = commands_of rest in
    elim e.what [ command c ↦ c ∷ others | rollover uri from ↦ others ]

-- What pruning tells of the targets.
unfoldable pub judge_targets : StuckState → Pruned → ℤ → StuckState
unfolding commands_of
judge_targets stuck pruned now =
    if is_empty pruned.landed && is_empty pruned.expired
    then stuck
    else record_expired (record_success stuck (commands_of pruned.landed))
        (commands_of pruned.expired) now

module _ (sort : List String → List String) where
  -- `publishStuck`; a list equal to the last one leaves it as it is.
  unfoldable pub publish_stuck : Driver → ℤ → Driver
  publish_stuck d now = record d { last_stuck = stuck_targets sort d.stuck now }

  -- `drive`, where the item of the pointer is not the last one
  unfoldable pub meet_item : Driver → Option String → ℤ → Driver
  unfolding publish_stuck
  meet_item d item_id now =
      let fresh = record d { last_item_id = item_id; stuck = fresh_stuck } in
      if same_uri item_id d.last_item_id then d else publish_stuck fresh now

  -- `drive`, once nobody is to blame
  unfoldable pub close_gap : Driver → ℕ → Observation → Scene → Driver
  unfolding meet_item next_command
  close_gap d generation obs scene =
      let met = meet_item d scene.pointer.item_id scene.now in
      let desired = desired_at scene.pointer scene.session_queue scene.server_now in
      next_command met generation obs
        (drop_stuck met.stuck (reconcile desired obs met.outstanding met.stuck scene.now) scene.now)

  -- `drive`
  unfoldable pub drive : Driver → ℕ → Observation → List Expectation → Scene → Driver
  unfolding close_gap keep_reading
  drive d generation obs explaining scene = elim (classify d.prev obs explaining) [
    | user ↦ keep_reading (set_mode (record d { outstanding = [] }) user_took_player) generation obs
    | ok ↦ close_gap d generation obs scene
  ]

  -- `runTick`, from pruning on
  unfoldable pub take_in : Driver → ℕ → Observation → Scene → Driver
  unfolding drive publish_stuck judge_targets keep_reading
  take_in d generation obs scene =
      let pruned = prune d.outstanding obs scene.now in
      let sorted = record d {
        outstanding = pruned.kept;
        stuck = judge_targets d.stuck pruned scene.now;
      } in
      let told = publish_stuck sorted scene.now in
      if is_attached d.mode
      then drive told generation obs d.outstanding scene
      else keep_reading told generation obs

  -- `runTick`, with a reading of its own generation
  unfoldable pub take_reading : Driver → ℕ → Observation → Scene → Driver
  unfolding take_in watch_for_rollover
  take_reading d generation obs scene =
      let watched = watch_for_rollover d obs scene.now in
      take_in (if is_attached d.mode then watched else d) generation obs scene

  -- `runTick`, when the bridge answers
  unfoldable pub read : Driver → ℕ → Option ObserveResult → Scene → Driver
  unfolding take_reading end_tick
  read d generation none scene = end_tick d
  read d generation (some result) scene =
      let taken = take_reading d generation (observation_from result scene.now) scene in
      if d.stopped || not (eqb generation d.generation) then end_tick d else taken

  -- The answer to `spotify_observe`, for a tick that awaits one.
  unfoldable pub observed : Driver → Option ObserveResult → Scene → Driver
  unfolding read
  observed d result scene = elim d.flight [
    | reading generation ↦ read d generation result scene
    | at_rest ↦ d
    | sending generation obs c rest ↦ d
  ]

  -- The loop of `drive`, after the answer to a command.
  unfoldable pub after_send : Driver → ℕ → Observation → Command → List Command → Bool → ℤ → Driver
  unfolding next_command keep_reading
  after_send d generation obs c rest false now = next_command d generation obs rest
  after_send d generation obs c rest true now =
      let awaited = record d { outstanding = d.outstanding ++ expectation_for c now ∷ [] } in
      if may_send d generation
      then next_command awaited generation obs rest
      else keep_reading d generation obs

  -- The answer to a command, for a tick that awaits one.
  unfoldable pub answered : Driver → Bool → ℤ → Driver
  unfolding after_send
  answered d reached now = elim d.flight [
    | sending generation obs c rest ↦ after_send d generation obs c rest reached now
    | at_rest ↦ d
    | reading generation ↦ d
  ]

  -- `attach`
  unfoldable pub attach_player : Driver → ℤ → Driver
  unfolding forget publish_stuck set_mode tick
  attach_player d now =
      tick (set_mode (publish_stuck (record (forget d) { stuck = fresh_stuck }) now) attach)

  -- `stop`
  unfoldable pub stop : Driver → ℤ → Driver
  unfolding forget publish_stuck
  stop d now =
      record (publish_stuck (record (forget (record d { stopped = true })) { stuck = fresh_stuck })
        now) { last_item_id = none }

-- `detach`
unfoldable pub detach_player : Driver → Driver
unfolding forget set_mode
detach_player d = set_mode (forget d) detach

-- `start`
unfoldable pub start : Driver → Driver
unfolding tick
start d = if d.stopped then tick (record d { stopped = false }) else d

-- The bridge's state changes, while the driver is subscribed.
unfoldable pub bridge_change : Driver → BridgeState → Driver
unfolding tick
bridge_change d state =
    let heard = record d { bridge = some state } in
    if d.stopped
    then d
    else if is_ready (some state) && not (is_ready d.bridge)
    then tick heard
    else heard

-- The timer is due, or the room has changed, while the driver runs.
unfoldable pub poke : Driver → Driver
unfolding tick
poke d = if d.stopped then d else tick d
