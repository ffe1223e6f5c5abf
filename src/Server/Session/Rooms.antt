-- ===== src/Server/Session/Rooms.antt =====
-- apps/server/src/session.ts and rooms.ts: the live rooms, as ops, timers and sockets change them.
use spotjam.Prelude.{
  ℤ, pos, String, false, ◌==◌, eq_iff, none, some, Map, arith, ◌≡◌, Option-cases, Bool-cases, inl,
  inr,
}
use spotjam.Prelude.Dict
use spotjam.Prelude.Dict.{get-put, get-delete}
use spotjam.Protocol.Value.{Value, field, non_empty_string}
use spotjam.Protocol.Ops.{OpType}
use spotjam.Server.RoomState.Core.{RoomState}
use spotjam.Server.RoomState.Ops
use spotjam.Server.RoomState.Ops.{Rng, is_deserted, settle}
use spotjam.Server.RoomState.Sound.{
  IsSound, empty_room-IsSound, join-IsSound, leave-IsSound, settle-IsSound,
}
use spotjam.Server.HandleOp.{OpContext, OpOutcome, handle_op}
use spotjam.Server.HandleOp.Laws.{handle_op-IsSound}
use spotjam.Server.Rooms.{room_at, room_of, commit}
use spotjam.Server.Connections.{Connection, same_string}
use spotjam.Server.World
use spotjam.Server.World.{World, publish, fire}
use spotjam.Server.World.Laws.{publish-rooms, arm-rooms}
use spotjam.Server.Session.{
  still_present, leave_unless_present, leave_room, enter_room, join_room, elsewhere, view_playlists,
  settle_outcome, inside_op, set_connection, room_op, route_op, apply_op,
}

-- A room as the registry holds it.
pub record IsLive (room_id : String) (s : RoomState) : Type 0 where
  pub sound : IsSound s
  pub inhabited : is_deserted s ≡ false
  pub filed : s.room_id ≡ room_id

abbrev pub AllLive : Map RoomState → Type 0
AllLive rooms = (k : String) (s : RoomState) → Dict.get k rooms ≡ some s → IsLive k s

pub room_at-IsSound :
    (rooms : Map RoomState) (room_id : String) (now : ℤ)
    → AllLive rooms
    → IsSound (room_at rooms room_id now)
unfolding room_at
room_at-IsSound rooms room_id now v = elim (Option-cases (Dict.get room_id rooms)) [
  | inl e ↦ rw (room_at, e) (empty_room-IsSound room_id now)
  | inr (s, e) ↦ rw (room_at, e) (v room_id s e).sound
]

pub commit-AllLive :
    (rooms : Map RoomState) (s : RoomState) → AllLive rooms → IsSound s → AllLive (commit rooms s)
unfolding commit
commit-AllLive rooms s v h = elim (Bool-cases (is_deserted s)) [
  | inl e ↦ rw (commit, e) (λ k t f. v k t (ground (arith, get-delete s.room_id k rooms)))
  | inr e ↦
      rw (commit, e)
        (λ k t f. elim (Bool-cases (s.room_id == k)) [
          | inl g ↦
              let same : t ≡ s = ground (arith, get-put s.room_id k s rooms) in
              rw same (record { sound = h; inhabited = e; filed = (eq_iff s.room_id k).0 g })
          | inr g ↦ v k t (ground (arith, get-put s.room_id k s rooms))
        ])
]

pub publish-AllLive :
    (w : World) (room_id : String) (now : ℤ)
    → AllLive w.rooms
    → AllLive (publish w room_id now).rooms
publish-AllLive w room_id now v = rw (publish-rooms w room_id now) v

-- Where every live room is sound, has somebody in it and stands under its id, the same holds after
-- the timer of a room fires.
pub fire-AllLive :
    (w : World) (room_id : String) (now : ℤ) → AllLive w.rooms → AllLive (fire w room_id now).rooms
unfolding fire
fire-AllLive w room_id now v = elim (Option-cases (Dict.get room_id w.rooms)) [
  | inl e ↦ rw (fire, e) v
  | inr (s, e) ↦
      rw (fire, e)
        (publish-AllLive (record (World.cancel w room_id) { rooms = commit w.rooms (settle s now) })
          room_id now
          (commit-AllLive w.rooms (settle s now) v (settle-IsSound (v room_id s e).sound now)))
]

pub leave_unless_present-AllLive :
    (w : World) (pubkey room_id : String)
    → AllLive w.rooms
    → AllLive (leave_unless_present w pubkey room_id).rooms
leave_unless_present-AllLive w pubkey room_id v =
    elim (Bool-cases (still_present w pubkey room_id)) [
      | inl e ↦ rw (leave_unless_present, e) v
      | inr e ↦
          rw (leave_unless_present, e)
            (commit-AllLive w.rooms _ v
              (leave-IsSound (room_at-IsSound w.rooms room_id (pos 0) v) pubkey))
    ]

leave_room-AllLive :
    (w : World) (socket : String) (c : Connection) (pubkey room_id : String) (now : ℤ)
    → AllLive w.rooms
    → AllLive (leave_room w socket c pubkey room_id now).rooms
unfolding leave_room
leave_room-AllLive w socket c pubkey room_id now v =
    elim (Bool-cases (same_string c.room_id (some room_id))) [
      | inl e ↦
          rw (leave_room, e)
            (publish-AllLive
              (leave_unless_present (set_connection w socket (record c { room_id = none })) pubkey
                room_id)
              room_id now
              (leave_unless_present-AllLive (set_connection w socket (record c { room_id = none }))
                pubkey room_id v))
      | inr e ↦ rw (leave_room, e) v
    ]

enter_room-AllLive :
    (w : World) (socket : String) (c : Connection) (pubkey username room_id : String) (now : ℤ)
    → AllLive w.rooms
    → AllLive (enter_room w socket c pubkey username room_id now).rooms
unfolding enter_room
enter_room-AllLive w socket c pubkey username room_id now v =
    let joined = Ops.join (room_at w.rooms room_id now) pubkey username in
    let inside = record w { rooms = commit w.rooms joined } in
    publish-AllLive (set_connection inside socket (record c { room_id = some room_id })) room_id now
      (commit-AllLive w.rooms joined v
        (join-IsSound (room_at-IsSound w.rooms room_id now v) pubkey username))

join_room-AllLive :
    (w : World) (socket : String) (c : Connection) (pubkey username room_id : String) (now : ℤ)
    → AllLive w.rooms
    → AllLive (join_room w socket c pubkey username room_id now).rooms
unfolding join_room
join_room-AllLive w socket c pubkey username room_id now v =
    elim (Option-cases (elsewhere c.room_id room_id)) [
      | inl e ↦ rw (join_room, e) (enter_room-AllLive w socket c pubkey username room_id now v)
      | inr (other, e) ↦
          rw (join_room, e)
            (enter_room-AllLive (leave_room w socket c pubkey other now) socket
              (record c { room_id = none }) pubkey username room_id now
              (leave_room-AllLive w socket c pubkey other now v))
    ]

settle_outcome-AllLive :
    (w : World) (socket room_id : String) (outcome : OpOutcome) (now : ℤ)
    → AllLive w.rooms
    → IsSound outcome.state
    → AllLive (settle_outcome w socket room_id outcome now).rooms
unfolding settle_outcome
settle_outcome-AllLive w socket room_id outcome now v h =
    let committed = commit-AllLive w.rooms outcome.state v h in
    elim (Option-cases outcome.error) [
      | inl e ↦
          rw (settle_outcome, e)
            (publish-AllLive (record w { rooms = commit w.rooms outcome.state }) room_id now
              committed)
      | inr (code, e) ↦
          rw (settle_outcome, e)
            (rw ((arm-rooms (record w { rooms = commit w.rooms outcome.state }) room_id now).0)
              committed)
    ]

view_playlists-AllLive :
    (w : World) (socket room_id : String) (owner : Value)
    → AllLive w.rooms
    → AllLive (view_playlists w socket room_id owner).rooms
unfolding view_playlists
view_playlists-AllLive w socket room_id owner v = elim (Option-cases (non_empty_string owner)) [
  | inl e ↦ rw (view_playlists, e) v
  | inr (k, e) ↦ rw (view_playlists, e) v
]

inside_op-AllLive :
    (w : World) (socket pubkey room_id : String) (type : OpType) (op : Value) (now : ℤ) (rng : Rng)
    → AllLive w.rooms
    → AllLive (inside_op w socket pubkey room_id type op now rng).rooms
unfolding inside_op
inside_op-AllLive w socket pubkey room_id OpType.view_playlists op now rng v =
    view_playlists-AllLive w socket room_id (field "ownerPubkey" op) v
inside_op-AllLive w socket pubkey room_id type op now rng v =
    let ctx : OpContext = record { now = now; rng = rng } in
    settle_outcome-AllLive w socket room_id (handle_op (room_of w.rooms room_id) pubkey type op ctx)
      now v
      (handle_op-IsSound (room_of w.rooms room_id) pubkey type op ctx
        (room_at-IsSound w.rooms room_id (pos 0) v))

room_op-AllLive :
    (w : World) (socket : String) (c : Connection) (pubkey room_id : String) (type : OpType)
    (op : Value) (now : ℤ) (rng : Rng)
    → AllLive w.rooms
    → AllLive (room_op w socket c pubkey room_id type op now rng).rooms
unfolding room_op
room_op-AllLive w socket c pubkey room_id type op now rng v =
    elim (Bool-cases (same_string c.room_id (some room_id))) [
      | inl e ↦ rw (room_op, e) (inside_op-AllLive w socket pubkey room_id type op now rng v)
      | inr e ↦ rw (room_op, e) v
    ]

route_op-AllLive :
    (w : World) (socket : String) (c : Connection) (pubkey username room_id : String)
    (type : OpType) (op : Value) (now : ℤ) (rng : Rng)
    → AllLive w.rooms
    → AllLive (route_op w socket c pubkey username room_id type op now rng).rooms
unfolding route_op
route_op-AllLive w socket c pubkey username room_id OpType.join_room op now rng v =
    join_room-AllLive w socket c pubkey username room_id now v
route_op-AllLive w socket c pubkey username room_id OpType.leave_room op now rng v =
    leave_room-AllLive w socket c pubkey room_id now v
route_op-AllLive w socket c pubkey username room_id type op now rng v =
    room_op-AllLive w socket c pubkey room_id type op now rng v

pub apply_op-AllLive :
    (w : World) (socket : String) (c : Connection) (pubkey : String) (type : OpType) (op : Value)
    (now : ℤ) (rng : Rng)
    → AllLive w.rooms
    → AllLive (apply_op w socket c pubkey type op now rng).rooms
unfolding apply_op
apply_op-AllLive w socket c pubkey type op now rng v = elim (Option-cases c.username) [
  | inl e ↦ rw (apply_op, e) v
  | inr (username, e) ↦ elim (Bool-cases (same_string c.pubkey (some pubkey))) [
    | inr f ↦ rw (apply_op, e, f) v
    | inl f ↦ elim (Option-cases (non_empty_string (field "roomId" op))) [
      | inl g ↦ rw (apply_op, e, f, g) v
      | inr (room_id, g) ↦
          rw (apply_op, e, f, g)
            (route_op-AllLive w socket c pubkey username room_id type op now rng v)
    ]
  ]
]
