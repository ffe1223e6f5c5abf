-- ===== src/Server/Session/Frames.antt =====
-- apps/server/src/session.ts: `receive` and `close`, what a frame or the end of a socket sets off.
use spotjam.Prelude.{ℤ, String, Bool, true, false, if◌then◌else◌, Option, none, some}
use spotjam.Prelude.Dict
use spotjam.Protocol.Value.{Value, field, string_of, non_empty_string}
use spotjam.Protocol.Ops.{OpType, QueryType, ErrorCode, is_op, is_query}
use spotjam.Protocol.Envelope.{Envelope, OpenResult, opened, failed, open_value, replay_window_ms}
use spotjam.Server.RoomState.Ops.{Rng}
use spotjam.Server.RoomState.View.{project_snapshot}
use spotjam.Server.ReplayGuard.{ReplayGuard, admit}
use spotjam.Server.IdentityStore.{
  IdentityStore, IdentityRecord, RegisterResult, registered, refused, register,
}
use spotjam.Server.Rooms.{room_of, summaries}
use spotjam.Server.Connections.{Connection, same_string}
use spotjam.Server.World
use spotjam.Server.World.{World, send, error, room_detail, room_list, publish}
use spotjam.Server.Session.{
  failure_code, refusal_code, set_connection, leave_unless_present, still_present, apply_op,
}

-- `#adopt`
abbrev pub adopt : World → String → Connection → String → String → World
adopt w socket c pubkey username =
    send (set_connection w socket (record c { pubkey = some pubkey; username = some username }))
      socket (World.registered pubkey username)

-- What follows `identities.register`.
abbrev pub answer_registration :
    World → String → Connection → String → IdentityStore × RegisterResult → World
answer_registration w socket c pubkey (store, refused why) =
    send (record w { identities = store }) socket (error (refusal_code why))
answer_registration w socket c pubkey (store, registered r) =
    adopt (record w { identities = store }) socket c pubkey r.username

abbrev pub greet : World → String → Connection → String → Option IdentityRecord → World
greet w socket c pubkey none = send w socket (error ErrorCode.unknown_identity)
greet w socket c pubkey (some r) = adopt w socket c pubkey r.username

-- A query on one room, whose id must be there.
unfoldable pub watch_room : World → String → Connection → String → Value → ℤ → World
watch_room w socket c pubkey query now = elim (non_empty_string (field "roomId" query)) [
  | none ↦ send w socket (error ErrorCode.malformed)
  | some room_id ↦
      send (set_connection w socket (record c { watching_room_id = some room_id })) socket
        (room_detail (project_snapshot (room_of w.rooms room_id) pubkey now))
]

unfoldable pub unwatch_room : World → String → Connection → Value → World
unwatch_room w socket c query = elim (non_empty_string (field "roomId" query)) [
  | none ↦ send w socket (error ErrorCode.malformed)
  | some room_id ↦
      if same_string c.watching_room_id (some room_id)
      then set_connection w socket (record c { watching_room_id = none })
      else w
]

-- `#handleQuery`, of an authenticated connection
unfoldable pub answer_query : World → String → Connection → String → QueryType → Value → ℤ → World
unfolding watch_room unwatch_room
answer_query w socket c pubkey QueryType.watch_rooms query now =
    send (set_connection w socket (record c { watching_list = true })) socket
      (room_list (summaries w.rooms))
answer_query w socket c pubkey QueryType.unwatch_rooms query now =
    set_connection w socket (record c { watching_list = false })
answer_query w socket c pubkey QueryType.watch_room query now =
    watch_room w socket c pubkey query now
answer_query w socket c pubkey QueryType.unwatch_room query now = unwatch_room w socket c query

-- `#handleQuery`
unfoldable pub handle_query : World → String → Connection → String → QueryType → Value → ℤ → World
unfolding answer_query
handle_query w socket c pubkey type query now =
    if same_string c.pubkey (some pubkey)
    then answer_query w socket c pubkey type query now
    else send w socket (error ErrorCode.unknown_identity)

-- An op, a query, or neither.
abbrev pub dispatch :
    World
    → String
    → Connection
    → String
    → Value
    → Option OpType
    → Option QueryType
    → ℤ
    → Rng
    → World
dispatch w socket c pubkey payload (some type) query now rng =
    apply_op w socket c pubkey type payload now rng
dispatch w socket c pubkey payload none (some type) now rng =
    handle_query w socket c pubkey type payload now
dispatch w socket c pubkey payload none none now rng = send w socket (error ErrorCode.malformed)

-- `close`, of a connection in a room with a key
abbrev pub close_in : World → Option String → Option String → ℤ → World
close_in w (some room_id) (some pubkey) now =
    publish (leave_unless_present w pubkey room_id) room_id now
close_in w room_id pubkey now = w

-- `close`
unfoldable pub close : World → String → ℤ → World
unfolding publish still_present
close w socket now = elim (Dict.get socket w.connections) [
  | none ↦ w
  | some c ↦
      close_in (record w { connections = Dict.delete socket w.connections }) c.room_id c.pubkey now
]

module _ (is_valid_username : String → Bool) (normalize_username : String → String) where
  -- `#authenticate`, of a `register`
  unfoldable pub claim_name : World → String → Connection → String → Option String → ℤ → World
  claim_name w socket c pubkey none now = send w socket (error ErrorCode.invalid_username)
  claim_name w socket c pubkey (some username) now =
      answer_registration w socket c pubkey
        (register is_valid_username normalize_username w.identities pubkey username now)

  -- `isAuthPayload` and `#authenticate`, or what a payload of another type asks.
  unfoldable pub handle_payload : World → String → Connection → String → Value → ℤ → Rng → World
  unfolding claim_name
  handle_payload w socket c pubkey payload now rng =
      let type = string_of (field "type" payload) in
      if same_string type (some "register")
      then claim_name w socket c pubkey (string_of (field "username" payload)) now
      else if same_string type (some "hello")
      then greet w socket c pubkey (Dict.get pubkey w.identities.by_pubkey)
      else dispatch w socket c pubkey payload (is_op payload) (is_query payload) now rng

  -- What follows the replay guard.
  unfoldable pub admit_payload :
      World → String → Connection → Envelope → ReplayGuard × Bool → ℤ → Rng → World
  unfolding handle_payload
  admit_payload w socket c e (guard, fresh) now rng =
      let spent = record w { replay = guard } in
      if fresh
      then handle_payload spent socket c e.pubkey e.payload now rng
      else send spent socket (error ErrorCode.replay)

  module _ (is_public_key_hex is_signature_hex : String → Bool)
      (verify_bytes : Envelope → Bool) where
    -- `#verify`, and what follows it
    unfoldable pub receive_envelope : World → String → Connection → OpenResult → ℤ → Rng → World
    unfolding admit_payload
    receive_envelope w socket c (failed why) now rng = send w socket (error (failure_code why))
    receive_envelope w socket c (opened e) now rng =
        admit_payload w socket c e (admit w.replay e.nonce now e.timestamp) now rng

    -- `receive`, of a frame that `JSON.parse` took or not
    unfoldable pub receive_frame : World → String → Connection → Option Value → ℤ → Rng → World
    unfolding receive_envelope
    receive_frame w socket c none now rng = send w socket (error ErrorCode.malformed)
    receive_frame w socket c (some parsed) now rng =
        receive_envelope w socket c
          (open_value is_public_key_hex is_signature_hex verify_bytes parsed now replay_window_ms)
          now rng

    -- `receive`, on an open socket
    unfoldable pub receive : World → String → Option Value → ℤ → Rng → World
    unfolding receive_frame
    receive w socket frame now rng = elim (Dict.get socket w.connections) [
      | none ↦ w
      | some c ↦ receive_frame w socket c frame now rng
    ]
