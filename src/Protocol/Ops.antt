-- ===== src/Protocol/Ops.antt =====
-- packages/protocol/src/ops.ts, queries.ts and events.ts: what a client may ask, and the errors it
-- may be answered with.
use spotjam.Prelude.{String, ◌==◌, if◌then◌else◌, Option, none, some}
use spotjam.Protocol.Value.{Value, field, string_of}

pub data OpType : Type 0 where
  join_room leave_room set_broadcasting enqueue remove move_many send_to_top shuffle clear_queue :
      OpType
  set_paused seek skip set_public_playlists view_playlists : OpType

-- `OP_TYPES`
unfoldable pub op_type_of : String → Option OpType
op_type_of t =
    if t == "join-room"
    then some join_room
    else if t == "leave-room"
    then some leave_room
    else if t == "set-broadcasting"
    then some set_broadcasting
    else if t == "enqueue"
    then some enqueue
    else if t == "remove"
    then some remove
    else if t == "move-many"
    then some move_many
    else if t == "send-to-top"
    then some send_to_top
    else if t == "shuffle"
    then some shuffle
    else if t == "clear-queue"
    then some clear_queue
    else if t == "set-paused"
    then some set_paused
    else if t == "seek"
    then some seek
    else if t == "skip"
    then some skip
    else if t == "set-public-playlists"
    then some set_public_playlists
    else if t == "view-playlists"
    then some view_playlists
    else none

-- `isOp`, with the type that it found.
unfoldable pub is_op : Value → Option OpType
unfolding op_type_of
is_op value = elim (string_of (field "type" value)) [ none ↦ none | some t ↦ op_type_of t ]

pub data QueryType : Type 0 where
  watch_rooms unwatch_rooms watch_room unwatch_room : QueryType

-- `QUERY_TYPES`
unfoldable pub query_type_of : String → Option QueryType
query_type_of t =
    if t == "watch-rooms"
    then some watch_rooms
    else if t == "unwatch-rooms"
    then some unwatch_rooms
    else if t == "watch-room"
    then some watch_room
    else if t == "unwatch-room"
    then some unwatch_room
    else none

-- `isQuery`, with the type that it found.
unfoldable pub is_query : Value → Option QueryType
unfolding query_type_of
is_query value = elim (string_of (field "type" value)) [ none ↦ none | some t ↦ query_type_of t ]

-- The codes of `ErrorEvent`
pub data ErrorCode : Type 0 where
  bad_signature stale_envelope replay unknown_identity username_taken invalid_username : ErrorCode
  not_in_room malformed internal : ErrorCode
