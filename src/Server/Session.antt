-- ===== src/Server/Session.antt =====
-- apps/server/src/session.ts: everything the server does with one frame. A frame is what
-- `JSON.parse` made of it, none where it threw, and one instant stands for the clock while it is
-- handled.
pub mod Frames
pub mod Rooms
pub mod Laws
pub mod Authority
mod Tests
use spotjam.Prelude.{
  ℤ, pos, String, Bool, true, false, not, ◌||◌, ◌==◌, if◌then◌else◌, Option, none, some, is_none,
  some_of, Map,
}
use spotjam.Prelude.Dict
use spotjam.Protocol.Value.{Value, field, string_of, non_empty_string}
use spotjam.Protocol.Ops.{OpType, QueryType, ErrorCode, is_op, is_query}
use spotjam.Protocol.Envelope
use spotjam.Protocol.Envelope.{
  Envelope, OpenFailure, OpenResult, opened, failed, open_value, replay_window_ms,
}
use spotjam.Server.RoomState.Core.{RoomState, empty_room}
use spotjam.Server.RoomState.Ops
use spotjam.Server.RoomState.Ops.{Rng, public_playlists_of}
use spotjam.Server.RoomState.View.{project_snapshot}
use spotjam.Server.HandleOp.{OpOutcome, handle_op}
use spotjam.Server.ReplayGuard.{admit}
use spotjam.Server.IdentityStore.{RegisterResult, Refusal, registered, refused, register}
use spotjam.Server.IdentityStore
use spotjam.Server.Rooms.{room_at, room_of, commit, summaries}
use spotjam.Server.Connections.{Connection, new_connection, connections_in_room, same_string}
use spotjam.Server.World
use spotjam.Server.World.{
  World, send, error, room_state, room_detail, room_list, playlists, publish, arm,
}

-- `failureCode`
abbrev pub failure_code : OpenFailure → ErrorCode
failure_code Envelope.bad_signature = ErrorCode.bad_signature
failure_code Envelope.stale_timestamp = ErrorCode.stale_envelope
failure_code Envelope.future_timestamp = ErrorCode.stale_envelope
failure_code Envelope.malformed = ErrorCode.malformed

abbrev pub refusal_code : Refusal → ErrorCode
refusal_code IdentityStore.username_taken = ErrorCode.username_taken
refusal_code IdentityStore.invalid_username = ErrorCode.invalid_username

-- `add`
abbrev pub add : World → String → World
add w socket = record w { connections = Dict.put socket new_connection w.connections }

-- A connection as it is after a change.
abbrev pub set_connection : World → String → Connection → World
set_connection w socket c = record w { connections = Dict.put socket c w.connections }

-- `#stillPresent`
unfoldable pub still_present : World → String → String → Bool
unfolding connections_in_room
still_present w pubkey room_id =
    some_of (λ other. same_string other.1.pubkey (some pubkey))
      (connections_in_room w.connections room_id)

-- `rooms.commit(Room.leave(rooms.get(roomId), pubkey))`
abbrev pub leave_in : World → String → String → World
leave_in w pubkey room_id = record w {
  rooms = commit w.rooms (Ops.leave (room_of w.rooms room_id) pubkey);
}

-- The identity goes with its last connection.
abbrev pub leave_unless_present : World → String → String → World
leave_unless_present w pubkey room_id =
    if still_present w pubkey room_id then w else leave_in w pubkey room_id

-- `#leaveRoom`
unfoldable pub leave_room : World → String → Connection → String → String → ℤ → World
unfolding publish still_present
leave_room w socket c pubkey room_id now =
    if same_string c.room_id (some room_id)
    then send
        (publish
          (leave_unless_present (set_connection w socket (record c { room_id = none })) pubkey
            room_id)
          room_id now)
        socket (room_state (project_snapshot (empty_room room_id (pos 0)) pubkey now))
    else send w socket (error ErrorCode.not_in_room)

-- `connection.roomId !== null && connection.roomId !== roomId`
abbrev pub elsewhere : Option String → String → Option String
elsewhere none room_id = none
elsewhere (some other) room_id = if other == room_id then none else some other

-- `#joinRoom`, once another room is left
unfoldable pub enter_room : World → String → Connection → String → String → String → ℤ → World
unfolding publish
enter_room w socket c pubkey username room_id now =
    let joined = Ops.join (room_at w.rooms room_id now) pubkey username in
    let inside = record w { rooms = commit w.rooms joined } in
    publish (set_connection inside socket (record c { room_id = some room_id })) room_id now

-- `#joinRoom`
unfoldable pub join_room : World → String → Connection → String → String → String → ℤ → World
unfolding leave_room enter_room
join_room w socket c pubkey username room_id now = elim (elsewhere c.room_id room_id) [
  | none ↦ enter_room w socket c pubkey username room_id now
  | some other ↦
      enter_room (leave_room w socket c pubkey other now) socket (record c { room_id = none })
        pubkey username room_id now
]

-- `#viewPlaylists`
unfoldable pub view_playlists : World → String → String → Value → World
view_playlists w socket room_id owner = elim (non_empty_string owner) [
  | none ↦ send w socket (error ErrorCode.malformed)
  | some pubkey ↦
      send w socket
        (playlists room_id pubkey (public_playlists_of (room_of w.rooms room_id) pubkey))
]

-- What follows `handleOp`.
unfoldable pub settle_outcome : World → String → String → OpOutcome → ℤ → World
unfolding publish arm
settle_outcome w socket room_id outcome now =
    let committed = record w { rooms = commit w.rooms outcome.state } in
    elim outcome.error [
      | some code ↦ send (arm committed room_id now) socket (error code)
      | none ↦ publish committed room_id now
    ]

-- An op on the room that the connection is in.
unfoldable pub inside_op : World → String → String → String → OpType → Value → ℤ → Rng → World
unfolding view_playlists settle_outcome
inside_op w socket pubkey room_id OpType.view_playlists op now rng =
    view_playlists w socket room_id (field "ownerPubkey" op)
inside_op w socket pubkey room_id type op now rng =
    settle_outcome w socket room_id
      (handle_op (room_of w.rooms room_id) pubkey type op (record { now = now; rng = rng })) now

unfoldable pub room_op :
    World → String → Connection → String → String → OpType → Value → ℤ → Rng → World
unfolding inside_op
room_op w socket c pubkey room_id type op now rng =
    if same_string c.room_id (some room_id)
    then inside_op w socket pubkey room_id type op now rng
    else send w socket (error ErrorCode.not_in_room)

-- An op of an authenticated connection on a room.
unfoldable pub route_op :
    World → String → Connection → String → String → String → OpType → Value → ℤ → Rng → World
unfolding join_room leave_room room_op
route_op w socket c pubkey username room_id OpType.join_room op now rng =
    join_room w socket c pubkey username room_id now
route_op w socket c pubkey username room_id OpType.leave_room op now rng =
    leave_room w socket c pubkey room_id now
route_op w socket c pubkey username room_id type op now rng =
    room_op w socket c pubkey room_id type op now rng

-- `#applyOp`
unfoldable pub apply_op : World → String → Connection → String → OpType → Value → ℤ → Rng → World
unfolding route_op
apply_op w socket c pubkey type op now rng = elim c.username [
  | none ↦ send w socket (error ErrorCode.unknown_identity)
  | some username ↦
      if not (same_string c.pubkey (some pubkey))
      then send w socket (error ErrorCode.unknown_identity)
      else elim (non_empty_string (field "roomId" op)) [
        | none ↦ send w socket (error ErrorCode.malformed)
        | some room_id ↦ route_op w socket c pubkey username room_id type op now rng
      ]
]
