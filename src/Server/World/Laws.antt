-- ===== src/Server/World/Laws.antt =====
-- apps/server/src/session.ts: what telling of a change leaves alone.
use spotjam.Prelude.{
  ℤ, String, List, [], ◌∷◌, Map, ◌≡◌, refl, ◌∙◌, Option-cases, Bool-cases, inl, inr,
}
use spotjam.Prelude.Dict
use spotjam.Protocol.Types.{RoomSnapshot}
use spotjam.Protocol.Pointer.{ends_at}
use spotjam.Server.RoomState.Core.{RoomState}
use spotjam.Server.Rooms.{RoomSummary, summarize, room_of}
use spotjam.Server.Connections.{Connection, connections_in_room, connections_watching_room}
use spotjam.Server.World
use spotjam.Server.World.{
  World, ServerEvent, send, arm, send_snapshots, send_list, publish_list, publish, row_changed,
}

-- The part of a world that telling leaves alone.
pub record IsTold (w v : World) : Type 0 where
  pub rooms : v.rooms ≡ w.rooms
  pub connections : v.connections ≡ w.connections
  pub pending : v.pending ≡ w.pending

IsTold-refl : (w : World) → IsTold w w
IsTold-refl w = record { rooms = refl; connections = refl; pending = refl }

IsTold-trans : {u v w : World} → IsTold u v → IsTold v w → IsTold u w
IsTold-trans a b = record {
  rooms = b.rooms ∙ a.rooms;
  connections = b.connections ∙ a.connections;
  pending = b.pending ∙ a.pending;
}

send-IsTold : (w : World) (socket : String) (event : ServerEvent) → IsTold w (send w socket event)
send-IsTold w socket event = record { rooms = refl; connections = refl; pending = refl }

send_snapshots-IsTold :
    (event : RoomSnapshot → ServerEvent) (state : RoomState) (now : ℤ)
    (cs : List (String × Connection)) (w : World)
    → IsTold w (send_snapshots event state now cs w)
unfolding send_snapshots
send_snapshots-IsTold event state now [] w = IsTold-refl w
send_snapshots-IsTold event state now ((socket, c) ∷ rest) w = elim (Option-cases c.pubkey) [
  | inl e ↦ rw (e, send_snapshots) (send_snapshots-IsTold event state now rest w)
  | inr (k, e) ↦
      rw (e, send_snapshots)
        (IsTold-trans (send-IsTold w socket _) (send_snapshots-IsTold event state now rest _))
]

send_list-IsTold :
    (rooms : List RoomSummary) (cs : List (String × Connection)) (w : World)
    → IsTold w (send_list rooms cs w)
unfolding send_list
send_list-IsTold rooms [] w = IsTold-refl w
send_list-IsTold rooms ((socket, c) ∷ rest) w =
    IsTold-trans (send-IsTold w socket _) (send_list-IsTold rooms rest _)

tell_list-IsTold :
    (w : World) (last : Map RoomSummary)
    → IsTold w (World.tell_list (record w { last_summary = last }))
tell_list-IsTold w last =
    let told = send_list-IsTold _ _ (record w { last_summary = last }) in
    record { rooms = told.rooms; connections = told.connections; pending = told.pending }

publish_list-IsTold : (w : World) (room_id : String) → IsTold w (publish_list w room_id)
unfolding publish_list
publish_list-IsTold w room_id = elim (Option-cases (Dict.get room_id w.rooms)) [
  | inl e ↦ elim (Bool-cases (Dict.has room_id w.last_summary)) [
    | inl f ↦ rw (publish_list, e, f) (tell_list-IsTold w _)
    | inr f ↦ rw (publish_list, e, f) (IsTold-refl w)
  ]
  | inr (s, e) ↦ elim (Bool-cases (row_changed (Dict.get room_id w.last_summary) (summarize s))) [
    | inl f ↦ rw (publish_list, e, f) (tell_list-IsTold w _)
    | inr f ↦ rw (publish_list, e, f) (IsTold-refl w)
  ]
]

pub publish-IsTold :
    (w : World) (room_id : String) (now : ℤ) → IsTold (arm w room_id now) (publish w room_id now)
unfolding publish
publish-IsTold w room_id now =
    let state = room_of w.rooms room_id in
    let members = connections_in_room w.connections room_id in
    let watchers = connections_watching_room w.connections room_id in
    let armed = arm w room_id now in
    let told = send_snapshots World.room_state state now members armed in
    let shown = send_snapshots World.room_detail state now watchers told in
    IsTold-trans (send_snapshots-IsTold World.room_state state now members armed) (
      IsTold-trans (send_snapshots-IsTold World.room_detail state now watchers told)
        (publish_list-IsTold shown room_id))

pub arm-rooms :
    (w : World) (room_id : String) (now : ℤ)
    → ((arm w room_id now).rooms ≡ w.rooms) × ((arm w room_id now).connections ≡ w.connections)
unfolding arm
arm-rooms w room_id now = elim (Option-cases (Dict.get room_id w.rooms)) [
  | inl e ↦ rw (arm, e) (refl, refl)
  | inr (s, e) ↦ elim (Option-cases (ends_at s.pointer)) [
    | inl f ↦ rw (arm, e, f) (refl, refl)
    | inr (end, f) ↦ rw (arm, e, f) (refl, refl)
  ]
]

pub publish-rooms :
    (w : World) (room_id : String) (now : ℤ) → (publish w room_id now).rooms ≡ w.rooms
publish-rooms w room_id now = (publish-IsTold w room_id now).rooms ∙ (arm-rooms w room_id now).0
