-- ===== src/Server/World.antt =====
-- apps/server/src/session.ts and room-clock.ts: what a session holds, and how it tells of a change.
-- A timer is the instant at which it is due. What is sent is a log; the text of an error is left out.
pub mod Laws
pub mod Timers
use spotjam.Prelude.{
  ℤ, pos, ◌+ℤ◌, ◌-ℤ◌, max_ℤ, String, Bool, true, not, if◌then◌else◌, Option, none, some, List, [],
  ◌∷◌, ◌++◌, Map,
}
use spotjam.Prelude.Dict
use spotjam.Protocol.Types.{RoomSnapshot, SharedPlaylist}
use spotjam.Protocol.Ops.{ErrorCode}
use spotjam.Protocol.Pointer.{ends_at}
use spotjam.Server.RoomState.Core.{RoomState}
use spotjam.Server.RoomState.Ops.{settle}
use spotjam.Server.RoomState.View.{project_snapshot}
use spotjam.Server.IdentityStore.{IdentityStore}
use spotjam.Server.ReplayGuard.{ReplayGuard}
use spotjam.Server.Rooms.{RoomSummary, summarize, same_summary, summaries, room_of, commit}
use spotjam.Server.Connections.{
  Connection, connections_in_room, connections_watching_list, connections_watching_room,
}

-- `ServerEvent`
pub data ServerEvent : Type 0 where
  registered : String → String → ServerEvent
  room_state room_detail : RoomSnapshot → ServerEvent
  room_list : List RoomSummary → ServerEvent
  error : ErrorCode → ServerEvent
  playlists : String → String → List SharedPlaylist → ServerEvent

pub record World : Type 0 where
  pub rooms : Map RoomState
  pub identities : IdentityStore
  pub replay : ReplayGuard
  pub connections : Map Connection
  pub last_summary : Map RoomSummary
  pub pending : Map ℤ
  pub sent : List (String × ServerEvent)

-- `send`
abbrev pub send : World → String → ServerEvent → World
send w socket event = record w { sent = w.sent ++ (socket, event) ∷ [] }

-- `arm`, once the earlier timer is cancelled
abbrev pub point_timer : World → String → Option ℤ → ℤ → World
point_timer w room_id none now = w
point_timer w room_id (some end) now = record w {
  pending = Dict.put room_id (now +ℤ max_ℤ (pos 0) (end -ℤ now)) w.pending;
}

abbrev pub cancel : World → String → World
cancel w room_id = record w { pending = Dict.delete room_id w.pending }

-- `arm`
unfoldable pub arm : World → String → ℤ → World
arm w room_id now = elim (Dict.get room_id w.rooms) [
  | none ↦ cancel w room_id
  | some state ↦ point_timer (cancel w room_id) room_id (ends_at state.pointer) now
]

-- The snapshot of a room for each connection of a list that has a key.
unfoldable pub send_snapshots :
    (RoomSnapshot → ServerEvent) → RoomState → ℤ → List (String × Connection) → World → World
send_snapshots event state now [] w = w
send_snapshots event state now ((socket, c) ∷ rest) w = elim c.pubkey [
  | none ↦ send_snapshots event state now rest w
  | some pubkey ↦
      send_snapshots event state now rest
        (send w socket (event (project_snapshot state pubkey now)))
]

unfoldable pub send_list : List RoomSummary → List (String × Connection) → World → World
send_list rooms [] w = w
send_list rooms ((socket, c) ∷ rest) w = send_list rooms rest (send w socket (room_list rooms))

abbrev pub tell_list : World → World
tell_list w = send_list (summaries w.rooms) (connections_watching_list w.connections) w

-- The row of a live room, against the one that was last told of.
abbrev pub row_changed : Option RoomSummary → RoomSummary → Bool
row_changed none current = true
row_changed (some previous) current = not (same_summary previous current)

-- `#publishList`
unfoldable pub publish_list : World → String → World
publish_list w room_id = elim (Dict.get room_id w.rooms) [
  | none ↦
      if Dict.has room_id w.last_summary
      then tell_list (record w { last_summary = Dict.delete room_id w.last_summary })
      else w
  | some state ↦
      let current = summarize state in
      if row_changed (Dict.get room_id w.last_summary) current
      then tell_list (record w { last_summary = Dict.put room_id current w.last_summary })
      else w
]

-- `#publish`
unfoldable pub publish : World → String → ℤ → World
unfolding arm send_snapshots publish_list
publish w room_id now =
    let state = room_of w.rooms room_id in
    let armed = arm w room_id now in
    let told =
      send_snapshots room_state state now (connections_in_room w.connections room_id) armed in
    let shown =
      send_snapshots room_detail state now (connections_watching_room w.connections room_id) told in
    publish_list shown room_id

-- `#fire`, when the timer of a room is due
unfoldable pub fire : World → String → ℤ → World
unfolding publish settle
fire w room_id now =
    let fired = cancel w room_id in
    elim (Dict.get room_id w.rooms) [
      | none ↦ fired
      | some state ↦
          publish (record fired { rooms = commit w.rooms (settle state now) }) room_id now
    ]
