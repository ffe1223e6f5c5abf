-- ===== src/Playback/Expectations.antt =====
-- apps/desktop/src/lib/playback/expectations.ts: what the player is expected to do, and until when.
use spotjam.Prelude.{
  ℤ, pos, ◌+ℤ◌, ◌-ℤ◌, leb_ℤ, max_ℤ, abs_ℤ, String, Bool, false, not, ◌==◌, if◌then◌else◌, Option,
  none, some, is_none, same_option, List, [], ◌∷◌, some_of,
}
use spotjam.Playback.Observation.{Observation}
use spotjam.Playback.Commands.{
  Command, Kind, play, seek, pause, resume, set_next, clear_queue, kind_of, same_kind,
  rollover_kind,
}

-- `Awaited`: a command, or a rollover to `uri` from the track it was registered on
pub data Awaited : Type 0 where
  command : Command → Awaited
  rollover : Option String → Option String → Awaited

pub record Expectation : Type 0 where
  pub what : Awaited
  pub issued_at : ℤ
  pub deadline : ℤ

abbrev pub transport_deadline_ms : ℤ
transport_deadline_ms = pos 3000

abbrev pub queue_deadline_ms : ℤ
queue_deadline_ms = pos 1500

abbrev pub seek_slack_ms : ℤ
seek_slack_ms = pos 3000

abbrev pub rollover_slack_ms : ℤ
rollover_slack_ms = pos 1500

-- `deadlineFor`
unfoldable pub deadline_for : Command → ℤ
deadline_for (set_next uri) = queue_deadline_ms
deadline_for clear_queue = queue_deadline_ms
deadline_for c = transport_deadline_ms

-- `expectationFor`
unfoldable pub expectation_for : Command → ℤ → Expectation
unfolding deadline_for
expectation_for c now = record {
  what = command c;
  issued_at = now;
  deadline = now +ℤ deadline_for c;
}

-- `rolloverFor`
unfoldable pub rollover_for : Observation → ℤ → Expectation
rollover_for obs now = record {
  what = rollover obs.queue_head obs.track_uri;
  issued_at = now;
  deadline = obs.at +ℤ max_ℤ (pos 0) (obs.duration_ms -ℤ obs.position_ms) +ℤ rollover_slack_ms;
}

-- `a === b` of two uris that may be null
abbrev pub same_uri : Option String → Option String → Bool
same_uri = same_option (λ a b. a == b)

unfoldable pub holds_what : Awaited → ℤ → Observation → Bool
holds_what (command (play uri)) issued_at obs = same_uri obs.track_uri (some uri)
holds_what (command pause) issued_at obs = obs.is_paused
holds_what (command resume) issued_at obs = not obs.is_paused
holds_what (command (seek position_ms)) issued_at obs =
    let drifted = if obs.is_paused then pos 0 else obs.at -ℤ issued_at in
    leb_ℤ (abs_ℤ (obs.position_ms -ℤ (position_ms +ℤ drifted))) seek_slack_ms
holds_what (command (set_next uri)) issued_at obs = same_uri obs.queue_head (some uri)
holds_what (command clear_queue) issued_at obs = is_none obs.queue_head
holds_what (rollover (some uri) from) issued_at obs = same_uri obs.track_uri (some uri)
holds_what (rollover none from) issued_at obs = not (same_uri obs.track_uri from)

-- `holds`
unfoldable pub holds : Expectation → Observation → Bool
unfolding holds_what
holds e obs = holds_what e.what e.issued_at obs

pub record Pruned : Type 0 where
  pub kept : List Expectation
  pub landed : List Expectation
  pub expired : List Expectation

-- `prune`
unfoldable pub prune : List Expectation → Observation → ℤ → Pruned
prune [] obs now = record { kept = []; landed = []; expired = [] }
prune (e ∷ list) obs now =
    let rest = prune list obs now in
    if holds e obs
    then record rest { landed = e ∷ rest.landed }
    else if leb_ℤ e.deadline now
    then record rest { expired = e ∷ rest.expired }
    else record rest { kept = e ∷ rest.kept }

abbrev pub awaited_kind : Awaited → Kind
awaited_kind (command c) = kind_of c
awaited_kind (rollover uri from) = rollover_kind

-- `pending`
unfoldable pub pending : List Expectation → Kind → Bool
pending list kind = some_of (λ e. same_kind (awaited_kind e.what) kind) list

abbrev pub arrives : Option String → Awaited → Bool
arrives uri (command (play u)) = same_uri (some u) uri
arrives uri (command c) = false
arrives uri (rollover (some u) from) = same_uri (some u) uri
arrives uri (rollover none from) = false

-- `arriving`
unfoldable pub arriving : List Expectation → Option String → Bool
arriving list uri = some_of (λ e. arrives uri e.what) list

abbrev pub rolls_from : Option String → Awaited → Bool
rolls_from from (rollover uri f) = same_uri f from
rolls_from from (command c) = false

-- `rolloverPending`
unfoldable pub rollover_pending : List Expectation → Option String → Bool
rollover_pending list from = some_of (λ e. rolls_from from e.what) list
