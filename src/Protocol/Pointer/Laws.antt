-- ===== src/Protocol/Pointer/Laws.antt =====
-- packages/protocol/src/pointer.ts: positions and ends.
use spotjam.Prelude.{ℤ, pos, ◌≤ℤ◌, ◌<ℤ◌, +ℤ_parts, -ℤ_parts, some, ◌≡◌, arith}
use spotjam.Protocol.Types.{PlaybackPointer}
use spotjam.Protocol.Pointer.{position_at, ends_at}

-- A position is never negative, and where the track has a length, never past it.
pub position_at_bounds :
    (p : PlaybackPointer) (now : ℤ)
    → (pos 0 ≤ℤ position_at p now) × (pos 0 <ℤ p.duration_ms → position_at p now ≤ℤ p.duration_ms)
unfolding position_at
position_at_bounds p now = ground arith

-- A playing track of some length stands at its length exactly from the instant at which endsAt
-- says that it ends: there from then on, and short of it before.
pub position_at-ends_at :
    (p : PlaybackPointer) (now end : ℤ)
    → pos 0 <ℤ p.duration_ms
    → ends_at p ≡ some end
    → (end ≤ℤ now → position_at p now ≡ p.duration_ms)
      × (now <ℤ end → position_at p now <ℤ p.duration_ms)
unfolding position_at ends_at
position_at-ends_at p now end h e =
    ground (arith, +ℤ_parts p.started_at_epoch_ms p.duration_ms, -ℤ_parts now p.started_at_epoch_ms)
