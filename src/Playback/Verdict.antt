-- ===== src/Playback/Verdict.antt =====
-- apps/desktop/src/lib/playback/classify.ts: who is blamed for what the player does.
use spotjam.Prelude.{
  pos, leb_ℤ, ltb_ℤ, eqb_ℤ, abs_ℤ, ◌-ℤ◌, ◌+ℤ◌, Bool, true, false, not, ◌&&◌, ◌||◌, Option, none,
  some, List, arith, ◌≡◌, refl,
}
use spotjam.Playback.Observation.{Observation}
use spotjam.Playback.Expectations.{Expectation}
use spotjam.Playback.Reconcile.{same_bool}
use spotjam.Playback.Classify.{
  ok, classify, judge, jumped, play_pending_for, rollover_landed, seek_explains, parked_at_the_end,
  track_changed, track_explained, pause_explained, expected_position, jump_slack_ms, involves_ad,
}

-- A reading of a track that a play is pending for is never blamed on the user, wherever the player
-- stands in it, paused or not, and whatever it played before.
pub classify_of_play :
    (prev : Option Observation) (obs : Observation) (outstanding : List Expectation)
    → play_pending_for outstanding obs.track_uri ≡ true
    → classify prev obs outstanding ≡ ok
unfolding classify judge track_explained pause_explained jumped
classify_of_play none obs outstanding h = refl
classify_of_play (some prev) obs outstanding h = ground arith

-- A rollover that landed on another track is never blamed on the user.
pub classify_of_rollover :
    (prev obs : Observation) (outstanding : List Expectation)
    → rollover_landed outstanding obs ≡ true
    → track_changed prev obs ≡ true
    → classify (some prev) obs outstanding ≡ ok
unfolding classify judge track_explained pause_explained jumped
classify_of_rollover prev obs outstanding h c = ground arith

-- A reading of the same track, paused as it was, and within two seconds of where time alone takes
-- it, or where an outstanding seek accepts it, is never blamed on the user.
pub classify_of_time :
    (prev obs : Observation) (outstanding : List Expectation)
    → track_changed prev obs ≡ false
    → obs.is_paused ≡ prev.is_paused
    → (seek_explains outstanding obs
        || leb_ℤ (abs_ℤ (obs.position_ms -ℤ expected_position prev obs)) jump_slack_ms)
      ≡ true
    → classify (some prev) obs outstanding ≡ ok
unfolding classify judge track_explained pause_explained jumped
classify_of_time prev obs outstanding same paused near = ground arith

-- A person moved the player: to another track than the one that was near its end; or on the same
-- track, paused or resumed it short of its end, or skipped ahead, where it was not still loading.
-- Neither a change of track nor a pause counts around an ad.
abbrev pub touched : Observation → Observation → Bool
touched prev obs =
    (track_changed prev obs && not (parked_at_the_end prev || involves_ad prev obs))
    || (not (track_changed prev obs)
        && ((not (same_bool obs.is_paused prev.is_paused)
              && not (parked_at_the_end obs || involves_ad prev obs))
            || (not (eqb_ℤ prev.position_ms (pos 0) && not prev.is_paused)
                && ltb_ℤ (expected_position prev obs +ℤ jump_slack_ms) obs.position_ms)))
