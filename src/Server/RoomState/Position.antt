-- ===== src/Server/RoomState/Position.antt =====
-- apps/server/src/room-state.ts: `setPaused` against the position that everybody sees.
use spotjam.Prelude.{ℤ, ◌-ℤ◌, -ℤ_parts, eq_of_parts, Bool, arith, ◌≡◌}
use spotjam.Protocol.Pointer.{position_at}
use spotjam.Server.RoomState.Core.{RoomState}
use spotjam.Server.RoomState.Ops.{set_paused}

back_and_forth : (a b : ℤ) → a -ℤ (a -ℤ b) ≡ b
back_and_forth a b = eq_of_parts _ _ (ground (arith, -ℤ_parts a (a -ℤ b), -ℤ_parts a b))

-- To pause or to resume a room moves nothing: the position at that instant is what it was.
pub position_at-set_paused :
    (s : RoomState) (paused : Bool) (now : ℤ)
    → position_at (set_paused s paused now).pointer now ≡ position_at s.pointer now
unfolding position_at set_paused
position_at-set_paused s paused now =
    ground (arith, back_and_forth now s.pointer.paused_at_offset_ms)
