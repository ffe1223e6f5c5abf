-- ===== src/Client/Ops/Answer.antt =====
-- packages/room/src/lib/room-client.ts and apps/server/src/session.ts: what the server does at the op
-- of a connection, against what the client meant by it.
use spotjam.Prelude.{
  ℤ, String, Bool, true, false, not, eq_iff, eq_refl, ◌≢◌, if◌then◌else◌, Option, none, some, arith,
  ap, ◌≡◌, ◌∙◌, refl, Bool-cases, inl, inr,
}
use spotjam.Prelude.Dict
use spotjam.Protocol.Value.{str, field, find_field, non_empty_string}
use spotjam.Protocol.Ops.{ErrorCode, is_op}
use spotjam.Server.RoomState.Ops.{Rng, settle, settle_start, public_playlists_of}
use spotjam.Server.HandleOp.{finish, handle_op}
use spotjam.Server.Rooms.{room_of, commit}
use spotjam.Server.Connections.{Connection, same_string}
use spotjam.Server.World.{World, send, error, playlists, publish, arm}
use spotjam.Server.Session
use spotjam.Server.Session.{
  join_room, leave_room, view_playlists, settle_outcome, inside_op, room_op, route_op,
}
use spotjam.Client.Ops.{Op, op_value}
use spotjam.Client.Ops.Wire.{meant, type_of, IsSendable, is_op-op_value, apply_op-op_value}

-- What an op is to do to the room that its connection is in: a member's op takes effect on the
-- settled room, which then starts to play if it can, and everybody is told; for a stranger the
-- room's timer is set and the op is refused.
unfoldable pub carried_out : World → String → String → String → Op → ℤ → Rng → World
unfolding meant publish
carried_out w socket pubkey room_id op now rng =
    let room = room_of w.rooms room_id in
    let after = meant (settle room now) pubkey op (record { now = now; rng = rng }) in
    if Dict.has pubkey room.members
    then publish (record w { rooms = commit w.rooms (settle_start after now) }) room_id now
    else send (arm (record w { rooms = commit w.rooms room }) room_id now) socket
        (error ErrorCode.not_in_room)

-- What an op is to do, by a connection of that name and key.
unfoldable pub intended :
    World → String → Connection → String → String → String → Op → ℤ → Rng → World
unfolding join_room leave_room carried_out
intended w socket c pubkey username room_id Op.join_room now rng =
    join_room w socket c pubkey username room_id now
intended w socket c pubkey username room_id Op.leave_room now rng =
    leave_room w socket c pubkey room_id now
intended w socket c pubkey username room_id (Op.view_playlists owner) now rng =
    if same_string c.room_id (some room_id)
    then send w socket
        (playlists room_id owner (public_playlists_of (room_of w.rooms room_id) owner))
    else send w socket (error ErrorCode.not_in_room)
intended w socket c pubkey username room_id op now rng =
    if same_string c.room_id (some room_id)
    then carried_out w socket pubkey room_id op now rng
    else send w socket (error ErrorCode.not_in_room)

field-room_id : (room_id : String) (op : Op) → field "roomId" (op_value room_id op) ≡ str room_id
unfolding op_value field find_field
field-room_id room_id Op.join_room = refl
field-room_id room_id Op.leave_room = refl
field-room_id room_id (Op.set_broadcasting b) = refl
field-room_id room_id (Op.enqueue items) = refl
field-room_id room_id (Op.remove id) = refl
field-room_id room_id (Op.move_many ids before) = refl
field-room_id room_id (Op.send_to_top id) = refl
field-room_id room_id Op.shuffle = refl
field-room_id room_id Op.clear_queue = refl
field-room_id room_id (Op.set_paused paused) = refl
field-room_id room_id (Op.seek position) = refl
field-room_id room_id Op.skip = refl
field-room_id room_id (Op.set_public_playlists lists) = refl
field-room_id room_id (Op.view_playlists owner) = refl

non_empty_string-str : (s : String) → s ≢ "" → non_empty_string (str s) ≡ some s
unfolding non_empty_string
non_empty_string-str s h = ground (arith, eq_iff s "")

-- A room's own handling of an op is what the op is to do.
settle_outcome-handle_op :
    (w : World) (socket pubkey room_id : String) (op : Op) (now : ℤ) (rng : Rng)
    → IsSendable op
    → settle_outcome w socket room_id
        (handle_op
          (room_of w.rooms room_id)
          pubkey
          (type_of op)
          (op_value room_id op)
          (record { now = now; rng = rng }))
        now
      ≡ carried_out w socket pubkey room_id op now rng
unfolding settle_outcome carried_out handle_op finish
settle_outcome-handle_op w socket pubkey room_id op now rng h =
    elim (Bool-cases (Dict.has pubkey (room_of w.rooms room_id).members)) [
      | inl e ↦ rw e (
          rw
            (apply_op-op_value room_id op (settle (room_of w.rooms room_id) now) pubkey
              (record { now = now; rng = rng }) h)
            refl)
      | inr e ↦ rw e refl
    ]

if_then : {A : Type 0} (b : Bool) (x y z : A) → x ≡ y → (if b then x else z) ≡ (if b then y else z)
if_then true x y z e = e
if_then false x y z e = refl

view_playlists-str :
    (w : World) (socket room_id owner : String)
    → owner ≢ ""
    → view_playlists w socket room_id
        (field "ownerPubkey" (op_value room_id (Op.view_playlists owner)))
      ≡ send w socket
          (playlists room_id owner (public_playlists_of (room_of w.rooms room_id) owner))
unfolding view_playlists op_value field find_field
view_playlists-str w socket room_id owner h = rw (view_playlists, non_empty_string-str owner h) refl

route_op-op_value :
    (w : World) (socket : String) (c : Connection) (pubkey username room_id : String) (op : Op)
    (now : ℤ) (rng : Rng)
    → IsSendable op
    → route_op w socket c pubkey username room_id (type_of op) (op_value room_id op) now rng
      ≡ intended w socket c pubkey username room_id op now rng
unfolding route_op room_op inside_op intended type_of IsSendable
route_op-op_value w socket c pubkey username room_id Op.join_room now rng h = refl
route_op-op_value w socket c pubkey username room_id Op.leave_room now rng h = refl
route_op-op_value w socket c pubkey username room_id (Op.set_broadcasting b) now rng h =
    if_then (same_string c.room_id (some room_id)) _ _ _
      (settle_outcome-handle_op w socket pubkey room_id (Op.set_broadcasting b) now rng h)
route_op-op_value w socket c pubkey username room_id (Op.enqueue items) now rng h =
    if_then (same_string c.room_id (some room_id)) _ _ _
      (settle_outcome-handle_op w socket pubkey room_id (Op.enqueue items) now rng h)
route_op-op_value w socket c pubkey username room_id (Op.remove id) now rng h =
    if_then (same_string c.room_id (some room_id)) _ _ _
      (settle_outcome-handle_op w socket pubkey room_id (Op.remove id) now rng h)
route_op-op_value w socket c pubkey username room_id (Op.move_many ids before) now rng h =
    if_then (same_string c.room_id (some room_id)) _ _ _
      (settle_outcome-handle_op w socket pubkey room_id (Op.move_many ids before) now rng h)
route_op-op_value w socket c pubkey username room_id (Op.send_to_top id) now rng h =
    if_then (same_string c.room_id (some room_id)) _ _ _
      (settle_outcome-handle_op w socket pubkey room_id (Op.send_to_top id) now rng h)
route_op-op_value w socket c pubkey username room_id Op.shuffle now rng h =
    if_then (same_string c.room_id (some room_id)) _ _ _
      (settle_outcome-handle_op w socket pubkey room_id Op.shuffle now rng h)
route_op-op_value w socket c pubkey username room_id Op.clear_queue now rng h =
    if_then (same_string c.room_id (some room_id)) _ _ _
      (settle_outcome-handle_op w socket pubkey room_id Op.clear_queue now rng h)
route_op-op_value w socket c pubkey username room_id (Op.set_paused paused) now rng h =
    if_then (same_string c.room_id (some room_id)) _ _ _
      (settle_outcome-handle_op w socket pubkey room_id (Op.set_paused paused) now rng h)
route_op-op_value w socket c pubkey username room_id (Op.seek position) now rng h =
    if_then (same_string c.room_id (some room_id)) _ _ _
      (settle_outcome-handle_op w socket pubkey room_id (Op.seek position) now rng h)
route_op-op_value w socket c pubkey username room_id Op.skip now rng h =
    if_then (same_string c.room_id (some room_id)) _ _ _
      (settle_outcome-handle_op w socket pubkey room_id Op.skip now rng h)
route_op-op_value w socket c pubkey username room_id (Op.set_public_playlists lists) now rng h =
    if_then (same_string c.room_id (some room_id)) _ _ _
      (settle_outcome-handle_op w socket pubkey room_id (Op.set_public_playlists lists) now rng h)
route_op-op_value w socket c pubkey username room_id (Op.view_playlists owner) now rng h =
    if_then (same_string c.room_id (some room_id)) _ _ _
      (view_playlists-str w socket room_id owner h)

own_key :
    (key : Option String) (pubkey : String)
    → key ≡ some pubkey
    → same_string key (some pubkey) ≡ true
own_key key pubkey e = rw (e, eq_refl pubkey) refl

past_guards :
    {A : Type 0} (name : Option String) (own : Bool) (read : Option String)
    (username room_id : String) (stranger malformed : A) (routed : String → String → A)
    → name ≡ some username
    → own ≡ true
    → read ≡ some room_id
    → (elim name [
      | none ↦ stranger
      | some n ↦ if not own then stranger else elim read [ none ↦ malformed | some r ↦ routed n r ]
    ])
      ≡ routed username room_id
past_guards name own read username room_id stranger malformed routed e f g = rw (e, f, g) refl

-- The payload that a client makes of an op for a room is one that the server takes for that very
-- op, and at which the session of a connection with a name, for an envelope by the connection's
-- own key, does what the op is to do: a join joins and a leave leaves; whoever is elsewhere is
-- told so; for whoever is there, a look at playlists sends the owner's, and any other op of a
-- member takes effect on the settled room, which then starts if it can and is told of. The room's
-- id is not empty. Where the op carries ids or a key, they are not empty, nor is the list of a
-- move; items and shared tracks also have an uri, a track id and a length above zero.
pub apply_op-intended :
    (w : World) (socket : String) (c : Connection) (pubkey username room_id : String) (op : Op)
    (now : ℤ) (rng : Rng)
    → c.username ≡ some username
    → c.pubkey ≡ some pubkey
    → room_id ≢ ""
    → IsSendable op
    → (is_op (op_value room_id op) ≡ some (type_of op))
      × (Session.apply_op w socket c pubkey (type_of op) (op_value room_id op) now rng
          ≡ intended w socket c pubkey username room_id op now rng)
unfolding Session.apply_op
apply_op-intended w socket c pubkey username room_id op now rng named keyed known h = (
  is_op-op_value room_id op,
  past_guards c.username (same_string c.pubkey (some pubkey))
        (non_empty_string (field "roomId" (op_value room_id op))) username room_id
        (send w socket (error ErrorCode.unknown_identity))
        (send w socket (error ErrorCode.malformed))
        (λ name room.
          route_op w socket c pubkey name room (type_of op) (op_value room_id op) now rng)
        named (own_key c.pubkey pubkey keyed)
        (ap non_empty_string (field-room_id room_id op) ∙ non_empty_string-str room_id known)
      ∙ route_op-op_value w socket c pubkey username room_id op now rng h,
)
