-- ===== src/Playback/Classify.antt =====
-- apps/desktop/src/lib/playback/classify.ts: whether a person touched the player.
use spotjam.Prelude.{
  ℤ, pos, ◌+ℤ◌, ◌-ℤ◌, ltb_ℤ, leb_ℤ, eqb_ℤ, abs_ℤ, String, Bool, true, false, not, ◌&&◌, ◌||◌,
  if◌then◌else◌, Option, none, some, List, some_of,
}
use spotjam.Playback.Observation.{Observation, is_ad}
use spotjam.Playback.Commands.{play, seek, pause_kind, resume_kind}
use spotjam.Playback.Expectations.{
  Expectation, Awaited, command, rollover, holds, pending, same_uri,
}
use spotjam.Playback.Reconcile.{same_bool}

abbrev pub ran_out_slack_ms : ℤ
ran_out_slack_ms = pos 1500

abbrev pub jump_slack_ms : ℤ
jump_slack_ms = pos 2000

pub data Verdict : Type 0 where
  ok user : Verdict

abbrev pub plays : Option String → Awaited → Bool
plays uri (command (play u)) = same_uri (some u) uri
plays uri w = false

abbrev pub is_rollover : Awaited → Bool
is_rollover (rollover uri from) = true
is_rollover (command c) = false

abbrev pub is_seek : Awaited → Bool
is_seek (command (seek position_ms)) = true
is_seek w = false

-- `playPendingFor`
unfoldable pub play_pending_for : List Expectation → Option String → Bool
play_pending_for outstanding uri = some_of (λ e. plays uri e.what) outstanding

-- `rolloverLanded`
unfoldable pub rollover_landed : List Expectation → Observation → Bool
rollover_landed outstanding obs = some_of (λ e. is_rollover e.what && holds e obs) outstanding

-- `parkedAtTheEnd`
unfoldable pub parked_at_the_end : Observation → Bool
parked_at_the_end obs =
    ltb_ℤ (pos 0) obs.duration_ms && leb_ℤ (obs.duration_ms -ℤ ran_out_slack_ms) obs.position_ms

-- `seekExplains`
unfoldable pub seek_explains : List Expectation → Observation → Bool
seek_explains outstanding obs = some_of (λ e. is_seek e.what && holds e obs) outstanding

-- Where time alone would have taken the player since `prev`.
abbrev pub expected_position : Observation → Observation → ℤ
expected_position prev obs =
    if prev.is_paused then prev.position_ms else prev.position_ms +ℤ (obs.at -ℤ prev.at)

-- `jumped`
unfoldable pub jumped : Observation → Observation → List Expectation → Bool
jumped prev obs outstanding =
    if eqb_ℤ prev.position_ms (pos 0) && not prev.is_paused
    then false
    else if play_pending_for outstanding obs.track_uri
    then false
    else if seek_explains outstanding obs
    then false
    else ltb_ℤ jump_slack_ms (abs_ℤ (obs.position_ms -ℤ expected_position prev obs))

abbrev pub track_changed : Observation → Observation → Bool
track_changed prev obs = not (same_uri obs.track_uri prev.track_uri)

abbrev pub involves_ad : Observation → Observation → Bool
involves_ad prev obs = is_ad prev.track_uri || is_ad obs.track_uri

unfoldable pub track_explained : Observation → Observation → List Expectation → Bool
track_explained prev obs outstanding =
    not (track_changed prev obs)
    || ((play_pending_for outstanding obs.track_uri || rollover_landed outstanding obs)
        || (involves_ad prev obs || parked_at_the_end prev))

unfoldable pub pause_explained : Observation → Observation → List Expectation → Bool
pause_explained prev obs outstanding =
    (pending outstanding pause_kind || pending outstanding resume_kind)
    || (play_pending_for outstanding obs.track_uri
        || (track_changed prev obs || (involves_ad prev obs || parked_at_the_end obs)))

-- `classify` of two readings
unfoldable pub judge : Observation → Observation → List Expectation → Verdict
judge prev obs outstanding =
    if not (track_explained prev obs outstanding)
    then user
    else if not (same_bool obs.is_paused prev.is_paused)
        && not (pause_explained prev obs outstanding)
    then user
    else if not (track_changed prev obs) && jumped prev obs outstanding
    then user
    else ok

-- `classify`
unfoldable pub classify : Option Observation → Observation → List Expectation → Verdict
classify none obs outstanding = ok
classify (some prev) obs outstanding = judge prev obs outstanding
