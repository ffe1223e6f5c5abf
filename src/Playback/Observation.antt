-- ===== src/Playback/Observation.antt =====
-- apps/desktop/src/lib/playback/observation.ts: one reading of the local Spotify client.
use text.Mathlib.Text.{starts_with}
use spotjam.Prelude.{ℤ, String, Bool, false, Option, none, some}

pub record Observation : Type 0 where
  pub track_uri : Option String
  pub is_paused : Bool
  pub position_ms : ℤ
  pub duration_ms : ℤ
  pub queue_head : Option String
  pub at : ℤ

pub record PlayerState : Type 0 where
  pub track_uri : Option String
  pub track_name : Option String
  pub is_paused : Bool
  pub position_ms : ℤ
  pub duration_ms : ℤ

pub record ObserveResult : Type 0 where
  pub state : PlayerState
  pub queue_head : Option String

-- `isAd`
unfoldable pub is_ad : Option String → Bool
is_ad none = false
is_ad (some uri) = starts_with uri "spotify:ad:"

-- `observationFrom`
unfoldable pub observation_from : ObserveResult → ℤ → Observation
observation_from result at = record {
  track_uri = result.state.track_uri;
  is_paused = result.state.is_paused;
  position_ms = result.state.position_ms;
  duration_ms = result.state.duration_ms;
  queue_head = result.queue_head;
  at = at;
}
