-- ===== src/Server/Session/Laws.antt =====
-- apps/server/src/session.ts: queries, dispatch and closing against the live rooms.
use spotjam.Prelude.{
  ℤ, String, true, false, Option, none, some, ◌≡◌, refl, Option-cases, Bool-cases, inl, inr, ◌⊎◌,
}
use spotjam.Prelude.Dict
use spotjam.Protocol.Value.{Value, field, non_empty_string}
use spotjam.Protocol.Ops.{OpType, QueryType, is_op, is_query}
use spotjam.Server.RoomState.Ops.{Rng}
use spotjam.Server.Connections.{Connection, same_string}
use spotjam.Server.World.{World}
use spotjam.Server.Session.{apply_op, leave_unless_present}
use spotjam.Server.Session.Frames.{
  watch_room, unwatch_room, answer_query, handle_query, dispatch, close, close_in,
}
use spotjam.Server.Session.Rooms.{
  AllLive, apply_op-AllLive, leave_unless_present-AllLive, publish-AllLive,
}

answer_query-rooms :
    (w : World) (socket : String) (c : Connection) (pubkey : String) (type : QueryType)
    (query : Value) (now : ℤ)
    → (answer_query w socket c pubkey type query now).rooms ≡ w.rooms
unfolding answer_query watch_room unwatch_room
answer_query-rooms w socket c pubkey QueryType.watch_rooms query now = refl
answer_query-rooms w socket c pubkey QueryType.unwatch_rooms query now = refl
answer_query-rooms w socket c pubkey QueryType.watch_room query now =
    elim (Option-cases (non_empty_string (field "roomId" query))) [
      | inl e ↦ rw (answer_query, watch_room, e)
      | inr (r, e) ↦ rw (answer_query, watch_room, e)
    ]
answer_query-rooms w socket c pubkey QueryType.unwatch_room query now =
    elim (Option-cases (non_empty_string (field "roomId" query))) [
      | inl e ↦ rw (answer_query, unwatch_room, e)
      | inr (r, e) ↦ elim (Bool-cases (same_string c.watching_room_id (some r))) [
        | inl f ↦ rw (answer_query, unwatch_room, e, f)
        | inr f ↦ rw (answer_query, unwatch_room, e, f)
      ]
    ]

handle_query-rooms :
    (w : World) (socket : String) (c : Connection) (pubkey : String) (type : QueryType)
    (query : Value) (now : ℤ)
    → (handle_query w socket c pubkey type query now).rooms ≡ w.rooms
unfolding handle_query
handle_query-rooms w socket c pubkey type query now =
    elim (Bool-cases (same_string c.pubkey (some pubkey))) [
      | inl e ↦ rw (handle_query, e) (answer_query-rooms w socket c pubkey type query now)
      | inr e ↦ rw (handle_query, e)
    ]

apply_op_stranger :
    (w : World) (socket : String) (c : Connection) (pubkey : String) (type : OpType) (op : Value)
    (now : ℤ) (rng : Rng)
    → same_string c.pubkey (some pubkey) ≡ false
    → (apply_op w socket c pubkey type op now rng).rooms ≡ w.rooms
unfolding apply_op
apply_op_stranger w socket c pubkey type op now rng h = elim (Option-cases c.username) [
  | inl e ↦ rw (apply_op, e)
  | inr (username, e) ↦ rw (apply_op, e, h)
]

pub dispatch-rooms :
    (w : World) (socket : String) (c : Connection) (pubkey : String) (payload : Value) (now : ℤ)
    (rng : Rng)
    → ((dispatch w socket c pubkey payload (is_op payload) (is_query payload) now rng).rooms
        ≡ w.rooms)
      ⊎ ((same_string c.pubkey (some pubkey) ≡ true)
          × (type : OpType) × (is_op payload ≡ some type))
dispatch-rooms w socket c pubkey payload now rng = elim (Option-cases (is_op payload)) [
  | inr (type, e) ↦ elim (Bool-cases (same_string c.pubkey (some pubkey))) [
    | inl f ↦ inr (f, type, e)
    | inr f ↦ inl (rw e (apply_op_stranger w socket c pubkey type payload now rng f))
  ]
  | inl e ↦ elim (Option-cases (is_query payload)) [
    | inl f ↦ inl (rw (e, f))
    | inr (type, f) ↦ inl (rw (e, f) (handle_query-rooms w socket c pubkey type payload now))
  ]
]

pub dispatch-AllLive :
    (w : World) (socket : String) (c : Connection) (pubkey : String) (payload : Value) (now : ℤ)
    (rng : Rng)
    → AllLive w.rooms
    → AllLive (dispatch w socket c pubkey payload (is_op payload) (is_query payload) now rng).rooms
dispatch-AllLive w socket c pubkey payload now rng v = elim (Option-cases (is_op payload)) [
  | inr (type, e) ↦ rw e (apply_op-AllLive w socket c pubkey type payload now rng v)
  | inl e ↦ elim (Option-cases (is_query payload)) [
    | inl f ↦ rw (e, f) v
    | inr (type, f) ↦ rw (e, f) (rw (handle_query-rooms w socket c pubkey type payload now) v)
  ]
]

-- Where every live room is sound, has somebody in it and stands under its id, the same holds after
-- a socket closes.
pub close-AllLive :
    (w : World) (socket : String) (now : ℤ) → AllLive w.rooms → AllLive (close w socket now).rooms
unfolding close
close-AllLive w socket now v = elim (Option-cases (Dict.get socket w.connections)) [
  | inl e ↦ rw (close, e) v
  | inr (c, e) ↦
      let gone = record w { connections = Dict.delete socket w.connections } in
      rw (close, e) (closed gone c.room_id c.pubkey v)
]
  where
    closed :
        (u : World) (room_id pubkey : Option String)
        → AllLive u.rooms
        → AllLive (close_in u room_id pubkey now).rooms
    closed u none pubkey v = v
    closed u (some room_id) none v = v
    closed u (some room_id) (some pubkey) v =
        publish-AllLive (leave_unless_present u pubkey room_id) room_id now
          (leave_unless_present-AllLive u pubkey room_id v)
