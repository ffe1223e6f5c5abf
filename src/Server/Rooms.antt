-- ===== src/Server/Rooms.antt =====
-- apps/server/src/rooms.ts and room-summary.ts: the live rooms, and the row of each in a browser.
use spotjam.Prelude.{
  ℕ, ℤ, pos, eqb, eqb_ℤ, String, Bool, ◌&&◌, ◌==◌, if◌then◌else◌, Option, none, some, same_option,
  List, map, Map,
}
use spotjam.Prelude.Dict
use spotjam.Server.RoomState.Core.{RoomState, empty_room}
use spotjam.Server.RoomState.Ops.{is_deserted}

-- `RoomSummary`
pub record RoomSummary : Type 0 where
  pub room_id : String
  pub listeners : ℕ
  pub track_uri : Option String
  pub created_at_epoch_ms : ℤ

-- `summarize`
unfoldable pub summarize : RoomState → RoomSummary
summarize state = record {
  room_id = state.room_id;
  listeners = Dict.size state.members;
  track_uri = state.pointer.uri;
  created_at_epoch_ms = state.created_at_epoch_ms;
}

-- `sameSummary`
unfoldable pub same_summary : RoomSummary → RoomSummary → Bool
same_summary a b =
    a.room_id == b.room_id
    && (eqb a.listeners b.listeners
        && (same_option (λ x y. x == y) a.track_uri b.track_uri
            && eqb_ℤ a.created_at_epoch_ms b.created_at_epoch_ms))

-- `get`, with an instant for a fresh room
unfoldable pub room_at : Map RoomState → String → ℤ → RoomState
room_at rooms room_id now = elim (Dict.get room_id rooms) [
  | none ↦ empty_room room_id now
  | some state ↦ state
]

-- `get`, without an instant
abbrev pub room_of : Map RoomState → String → RoomState
room_of rooms room_id = room_at rooms room_id (pos 0)

-- `commit`
unfoldable pub commit : Map RoomState → RoomState → Map RoomState
commit rooms state =
    if is_deserted state
    then Dict.delete state.room_id rooms
    else Dict.put state.room_id state rooms

-- `summaries`
unfoldable pub summaries : Map RoomState → List RoomSummary
summaries rooms = map summarize (Dict.values rooms)
