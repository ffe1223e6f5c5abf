-- ===== src/Playback/Mode.antt =====
-- apps/desktop/src/lib/playback/mode.ts and control.ts, and bridge-state.ts beside: whether we
-- drive the player, and what the room's interface says of it.
use spotjam.Prelude.{Bool, true, false, not, ◌&&◌, if◌then◌else◌, Option, none, some}

pub data Mode : Type 0 where
  attached detached : Mode

pub data ModeEvent : Type 0 where
  attach detach user_took_player : ModeEvent

-- `nextMode`
unfoldable pub next_mode : Mode → ModeEvent → Mode
next_mode mode attach = attached
next_mode mode detach = detached
next_mode mode user_took_player = detached

-- apps/desktop/src/lib/bridge-state.ts
pub data BridgeState : Type 0 where
  no_spotify no_debug_port booting ready lost : BridgeState

-- `state === "ready"`
abbrev pub is_ready : Option BridgeState → Bool
is_ready (some ready) = true
is_ready _ = false

-- `cameBack`
unfoldable pub came_back : Option BridgeState → BridgeState → Bool
came_back none next = false
came_back (some prev) next = is_ready (some next) && not (is_ready (some prev))

-- `PlayerControlState`
pub data PlayerControlState : Type 0 where
  no_player : PlayerControlState
  in_mode : Mode → PlayerControlState

-- `controlState`
unfoldable pub control_state : Option BridgeState → Mode → PlayerControlState
control_state bridge mode = if is_ready bridge then in_mode mode else no_player
