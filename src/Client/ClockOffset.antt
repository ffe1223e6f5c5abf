-- ===== src/Client/ClockOffset.antt =====
-- packages/room/src/lib/clock-offset.ts: how far the server's clock is ahead of this machine's.
use spotjam.Prelude.{
  ℤ, pos, ◌+ℤ◌, ◌-ℤ◌, ◌≤ℤ◌, ltb_ℤ, if◌then◌else◌, Option, none, some, List, [], ◌∷◌, ◌++◌, keep_if,
}

abbrev pub offset_window_ms : ℤ
offset_window_ms = pos 60000

-- `OffsetSample`
pub record OffsetSample : Type 0 where
  pub server_time : ℤ
  pub local_now : ℤ

-- `foldSample`
unfoldable pub fold_sample : List OffsetSample → ℤ → ℤ → List OffsetSample
fold_sample prev server_time local_now =
    keep_if (λ sample. ltb_ℤ (local_now -ℤ offset_window_ms) sample.local_now) prev
    ++ record { server_time = server_time; local_now = local_now } ∷ []

abbrev pub sample_offset : OffsetSample → ℤ
sample_offset sample = sample.server_time -ℤ sample.local_now

-- The loop of `offsetOf`, once it has a best sample.
unfoldable pub best_from : ℤ → List OffsetSample → ℤ
best_from best [] = best
best_from best (sample ∷ rest) =
    best_from (if ltb_ℤ best (sample_offset sample) then sample_offset sample else best) rest

-- `offsetOf`
unfoldable pub offset_of : List OffsetSample → Option ℤ
unfolding best_from
offset_of [] = none
offset_of (sample ∷ rest) = some (best_from (sample_offset sample) rest)

-- `serverNow`
unfoldable pub server_now : ℤ → ℤ → ℤ
server_now offset local_now = local_now +ℤ offset

-- No sample of the window is above `bound`.
abbrev pub AllLow : ℤ → List OffsetSample → Type 0
AllLow bound [] = Unit {0}
AllLow bound (sample ∷ rest) = (sample_offset sample ≤ℤ bound) × AllLow bound rest
