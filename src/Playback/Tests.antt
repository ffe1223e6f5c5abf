-- ===== src/Playback/Tests.antt =====
-- Readings of a player in the middle of a track, and each theorem about the playback driver at them.
use spotjam.Prelude.{
  ◌+ℤ◌, ℤ, pos, ◌-ℤ◌, leb, String, false, some, none, List, [], ◌∷◌, length, some_of, arith, ◌≡◌,
  refl,
}
use spotjam.Prelude.Dict
use spotjam.Playback.Observation.{Observation}
use spotjam.Playback.Observation
use spotjam.Playback.Classify
use spotjam.Playback.Commands.{Command}
use spotjam.Playback.Expectations.{Expectation, expectation_for}
use spotjam.Playback.Stuck.{is_stuck, fresh_stuck, stuck_after, StuckState}
use spotjam.Playback.Stuck.Laws.{expirations, is_stuck-expirations}
use spotjam.Playback.Desired
use spotjam.Playback.Reconcile.{reconcile}
use spotjam.Playback.Pending.{is_awaited, reconcile-NoneAwaited}
use spotjam.Protocol.Tracks.{is_empty}
use spotjam.Playback.Agreement.{agrees, reconcile-agrees}
use spotjam.Playback.Classify.{ok, user, classify}
use spotjam.Playback.Verdict.{classify_of_play}

abbrev at_track : String → ℤ → ℤ → Observation
at_track uri position at = record {
  track_uri = some uri;
  is_paused = false;
  position_ms = position;
  duration_ms = pos 200000;
  queue_head = some "u2";
  at = at;
}

abbrev before : Observation
before = at_track "u1" (pos 5000) (pos 1000)

abbrev outstanding : List Expectation
outstanding =
    expectation_for (Command.play "u3") (pos 900)
    ∷ expectation_for (Command.seek (pos 90000)) (pos 900)
    ∷ []

reconcile-NoneAwaited_example :
    some_of (is_awaited outstanding) (
      reconcile
        (Desired.play "u3" (pos 0) (pos 1000) false none)
        before
        outstanding
        fresh_stuck
        (pos 1000))
    ≡ false
reconcile-NoneAwaited_example =
    reconcile-NoneAwaited (Desired.play "u3" (pos 0) (pos 1000) false none) before outstanding
      fresh_stuck (pos 1000)

classify_of_play_example :
    classify (some before) (at_track "u3" (pos 70) (pos 1150)) outstanding ≡ ok
classify_of_play_example =
    classify_of_play (some before) (at_track "u3" (pos 70) (pos 1150)) outstanding
      (unfold Classify.play_pending_for expectation_for in refl)

skipped : classify (some before) (at_track "u1" (pos 90000) (pos 1150)) [] ≡ user
unfolding classify Classify.judge Classify.track_explained Classify.jumped Classify.play_pending_for
    Classify.seek_explains ◌-ℤ◌ ◌+ℤ◌
skipped = refl

abbrev four_more : List ℤ
four_more = pos 3000 ∷ pos 6000 ∷ pos 9000 ∷ pos 12000 ∷ []

is_stuck-expirations_example :
    is_stuck
      (expirations fresh_stuck (Command.play "u3") (pos 0 ∷ four_more))
      (Command.play "u3")
      (pos 15000)
    ≡ leb stuck_after (length (pos 0 ∷ four_more))
is_stuck-expirations_example =
    is_stuck-expirations fresh_stuck (Command.play "u3") (pos 0) four_more (pos 15000)
      (unfold Dict.get in refl)
      (
        unfold ◌-ℤ◌ in omega arith,
        (
          unfold ◌-ℤ◌ in omega arith,
          (unfold ◌-ℤ◌ in omega arith, (unfold ◌-ℤ◌ in omega arith, unfold ◌-ℤ◌ in omega arith)),
        ),
      )

abbrev failing : StuckState
failing = ("pause", record { count = 7; at = pos 0 }) ∷ []

reconcile-agrees_example :
    is_empty (
      reconcile
        (Desired.play "u1" (pos 9000) (pos 200000) false none)
        before
        []
        fresh_stuck
        (pos 1000))
    ≡ agrees (Desired.play "u1" (pos 9000) (pos 200000) false none) before
reconcile-agrees_example =
    reconcile-agrees (Desired.play "u1" (pos 9000) (pos 200000) false none) before (pos 1000)
      (unfold Observation.is_ad in refl)
