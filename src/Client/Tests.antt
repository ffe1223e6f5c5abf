-- ===== src/Client/Tests.antt =====
-- A client in a room, its store and its line to the server, and each theorem about them.
use spotjam.Prelude.{
  map, keep_if, not, pos, String, true, false, ◌==◌, if◌then◌else◌, none, some, List, [], ◌∷◌, ◌++◌,
  arith, ◌≡◌, refl, ◌≢◌, eq_iff, ◌||◌, ◌&&◌,
}
use spotjam.Prelude.Dict
use spotjam.Protocol.Types.{QueueItem, PlaylistTrack, RoomSnapshot, null_pointer}
use spotjam.Protocol.Ops.{OpType, is_op}
use spotjam.Server.World.{ServerEvent}
use spotjam.Server.RoomState.Core.{RoomState, Member, empty_room}
use spotjam.Server.RoomState.Ops.{Rng, join, enqueue, set_broadcasting}
use spotjam.Server.RoomState.View as Server
use spotjam.Server.RoomState.View.{project_snapshot}
use spotjam.Server.RoomState.Sound.{
  IsSound, empty_room-IsSound, join-IsSound, enqueue-IsSound, set_broadcasting-IsSound,
}
use spotjam.Server.HandleOp.{OpContext, apply_op}
use spotjam.Client.View.{initial_view, take_snapshot, queue_of, is_broadcasting, connected}
use spotjam.Client.View.Peers.{shown_queue, queue_of-project_snapshot}
use spotjam.Client.Ops.{Op, op_value}
use spotjam.Client.Ops.Wire.{All, IsItem, type_of, IsSendable}
use spotjam.Client.Ops.Answer.{intended, apply_op-intended}
use spotjam.Server.World.{World}
use spotjam.Server.Connections as Sockets
use spotjam.Server.Session
use spotjam.Server.IdentityStore.{empty_store}
use spotjam.Server.ReplayGuard.{new_guard}
use spotjam.Client.QueueStore.{Storage, load_queue, save_queue}
use spotjam.Client.QueueStore.Kept.{load_queue-save_queue}
use spotjam.Client.Room.{RoomClient, news, happenings, new_room_client, on_event}
use spotjam.Client.Room.Heard.{IsOwn, happenings-IsOwn}
use spotjam.Client.Room.Restored.{offer, role_claim, snapshot_asks, apply_op-load_queue}
use spotjam.Client.Playlists.{
  Playlist, PlaylistSource, set_playlist_public, to_shared_playlists, create_playlist,
  remove_track_from_playlist, move_row_in_playlist, insert_tracks_into_playlist, shuffle_playlist,
}
use spotjam.Protocol.Tracks.{fresh_tracks, is_empty}
use spotjam.Client.Playlists.Edits.{
  Edit, AllOnce, edits, edits-AllOnce, to_shared_playlists-set_playlist_public,
}
use spotjam.Client.PlaylistsStore.{load_playlists, save_playlists}
use spotjam.Client.PlaylistsStore.Kept.{IsStorable, load_playlists-save_playlists}
use spotjam.Client.Connection as Line
use spotjam.Client.Connection.{
  Connection, new_connection, greeting, asked, opened, closed, message, signer, timer, sent, run,
}
use spotjam.Client.Connection.Lines.{run-IsLine}
use spotjam.Client.Connection.Sockets.{IsLine}
use spotjam.Client.Connection.Over.{run-destroy}

abbrev track : String → QueueItem
track t = record { id = t; uri = t; track_id = t; duration_ms = pos 1000 }

abbrev items : List QueueItem
items = track "t1" ∷ track "t2" ∷ []

abbrev room : RoomState
room =
    set_broadcasting
      (enqueue (join (join (empty_room "lobby" (pos 5)) "a" "ann") "b" "bob") "b" items) "b" true

room-IsSound : IsSound room
room-IsSound =
    set_broadcasting-IsSound
      (enqueue-IsSound
        (join-IsSound (join-IsSound (empty_room-IsSound "lobby" (pos 5)) "a" "ann") "b" "bob") "b"
        items)
      "b" true

queue_of-project_snapshot_example :
    queue_of (take_snapshot initial_view (project_snapshot room "a" (pos 50)) (pos 40)) "b" "a"
    ≡ (if "b" == "a" then Server.queue_of room "a" else shown_queue (Dict.get "b" room.members))
queue_of-project_snapshot_example =
    queue_of-project_snapshot room initial_view "b" "a" (pos 50) (pos 40) room-IsSound.roster

ne_text : (s t : String) → s == t ≡ false → s ≢ t
ne_text s t h e = cc (h, (eq_iff s t).1 e)

items-IsItem : All IsItem items
items-IsItem =
    let a = ne_text "t1" "" refl in
    let b = ne_text "t2" "" refl in ((a, a, a, omega arith), ((b, b, b, omega arith), tt))

abbrev context : OpContext
context = record { now = pos 10; rng = λ draw bound. 0 }

abbrev bob_here : Sockets.Connection
bob_here = record {
  pubkey = some "b";
  username = some "bob";
  room_id = some "lobby";
  watching_list = false;
  watching_room_id = none;
}

abbrev hosted : World
hosted = record {
  rooms = ("lobby", room) ∷ [];
  identities = empty_store;
  replay = new_guard (pos 60000) 100;
  connections = ("s1", bob_here) ∷ [];
  last_summary = [];
  pending = [];
  sent = [];
}

abbrev to_front : Op
to_front = Op.move_many ("t2" ∷ []) (some "t1")

abbrev draws : Rng
draws draw bound = 0

apply_op-intended_example :
    (is_op (op_value "lobby" to_front) ≡ some OpType.move_many)
    × (Session.apply_op hosted "s1" bob_here "b" OpType.move_many
          (op_value "lobby" to_front)
          (pos 10)
          draws
        ≡ intended hosted "s1" bob_here "b" "bob" "lobby" to_front (pos 10) draws)
unfolding type_of IsSendable
apply_op-intended_example =
    apply_op-intended hosted "s1" bob_here "b" "bob" "lobby" to_front (pos 10) draws refl refl
      (ne_text "lobby" "" refl) ((λ e. cc), (ne_text "t2" "" refl, tt), ne_text "t1" "" refl)

abbrev blank : Storage
blank = record { texts = []; writable = true }

load_queue-save_queue_example :
    load_queue (save_queue blank "lobby" items) "lobby"
    ≡ (if "lobby" == "lobby" then items else load_queue blank "lobby")
load_queue-save_queue_example = load_queue-save_queue blank "lobby" "lobby" items refl items-IsItem

happenings-IsOwn_example : IsOwn (
    happenings
      (new_room_client "lobby" "a" connected true blank)
      (news (ServerEvent.room_state (project_snapshot room "a" (pos 50))) (pos 40) ∷ []))
happenings-IsOwn_example =
    happenings-IsOwn "lobby" "a" connected true blank
      (news (ServerEvent.room_state (project_snapshot room "a" (pos 50))) (pos 40) ∷ [])

abbrev stocked : Storage
stocked = save_queue blank "lobby" items

-- A snapshot of a room that knows nothing of our queue.
abbrev bare : RoomSnapshot
bare = record {
  room_id = "lobby";
  participants = [];
  session_queue = [];
  my_queue = [];
  pointer = null_pointer;
  server_time = pos 50;
}

abbrev fresh_client : RoomClient
fresh_client = new_room_client "lobby" "a" connected true stocked

snapshot_asks_example :
    let after = on_event fresh_client (ServerEvent.room_state bare) (pos 40) in
    let stored = load_queue fresh_client.storage fresh_client.room_id in
    let role = is_broadcasting after.view fresh_client.my_pubkey in
    (after.asked
      ≡ (fresh_client.asked
          ++ (if fresh_client.view.status.synced
              then []
              else offer (if is_empty bare.my_queue then stored else [])))
        ++ (if fresh_client.view.status.synced
            then []
            else role_claim fresh_client.was_broadcasting role))
    × (after.view.snapshot ≡ some bare)
    × (after.storage ≡ save_queue fresh_client.storage fresh_client.room_id bare.my_queue)
    × (after.view.status.synced ≡ true)
    × (after.was_broadcasting
        ≡ role || (fresh_client.was_broadcasting && not fresh_client.view.status.synced))
unfolding new_room_client
snapshot_asks_example = snapshot_asks fresh_client bare (pos 40) refl

abbrev bob : Member
bob = record {
  pubkey = "b";
  username = "bob";
  broadcasting = false;
  queue = [];
  public_playlists = [];
  playlists_revision = 0;
}

-- A server that came back up, and that bob has joined again.
abbrev restarted : RoomState
restarted = record {
  room_id = "lobby";
  members = ("b", bob) ∷ [];
  order = "b" ∷ [];
  pointer = null_pointer;
  turn_cursor = 0;
  created_at_epoch_ms = pos 0;
}

stocked_lem : load_queue stocked "lobby" ≡ items
stocked_lem = load_queue-save_queue blank "lobby" "lobby" items refl items-IsItem

apply_op-load_queue_example :
    let op = op_value "lobby" (Op.enqueue (load_queue stocked "lobby")) in
    ((apply_op restarted "b" OpType.enqueue op context).error ≡ none)
    × (Server.queue_of (apply_op restarted "b" OpType.enqueue op context).state "b"
        ≡ load_queue stocked "lobby")
unfolding Dict.get
apply_op-load_queue_example =
    apply_op-load_queue stocked "lobby" "b" restarted bob context refl refl refl
      (rw stocked_lem (refl, (refl, tt)))

run-IsLine_example :
    IsLine (run (new_connection "ann" true) (opened 1 ∷ closed 1 ∷ timer true ∷ []))
run-IsLine_example = run-IsLine "ann" true (opened 1 ∷ closed 1 ∷ timer true ∷ [])

run-destroy_example :
    let c = run (Line.destroy (new_connection "ann" true)) (opened 1 ∷ timer true ∷ []) in
    (c.closed ≡ true)
    × (c.wire ≡ (new_connection "ann" true).wire)
    × (c.socket ≡ none)
    × (c.reconnect_handle ≡ none)
run-destroy_example = run-destroy (new_connection "ann" true) (opened 1 ∷ timer true ∷ [])

abbrev song : String → PlaylistTrack
song t = record { uri = t; track_id = t; duration_ms = pos 1000 }

-- Trimming leaves these names as they are.
abbrev as_typed : String → String
as_typed name = name

abbrev changes : List Edit
changes =
    Edit.create "mix" "p1"
    ∷ Edit.insert "p1" (song "a" ∷ song "b" ∷ song "a" ∷ []) none
    ∷ Edit.shuffle "p1" (λ draw bound. 0)
    ∷ Edit.move "p1" "b" (some "a")
    ∷ Edit.remove "p1" (some 1)
    ∷ Edit.set_public "p1" true
    ∷ []

edits-AllOnce_example : AllOnce (edits as_typed [] changes)
edits-AllOnce_example = edits-AllOnce as_typed [] changes tt

abbrev mine : List Playlist
mine =
    record {
      id = "p1";
      name = "mix";
      rows = record { track = song "a"; uid = none } ∷ [];
      is_public = true;
      source = PlaylistSource.local;
    }
    ∷ []

-- The edits leave the one track that was not removed, and the playlist is shared.
left_over :
    map (λ p. p.tracks) (to_shared_playlists (edits as_typed [] changes)) ≡ (song "b" ∷ []) ∷ []
unfolding edits shuffle_playlist to_shared_playlists create_playlist set_playlist_public
    remove_track_from_playlist move_row_in_playlist insert_tracks_into_playlist fresh_tracks
left_over = refl

to_shared_playlists-set_playlist_public_example :
    to_shared_playlists (set_playlist_public mine "p1" false)
    ≡ keep_if (λ shared. not (shared.id == "p1")) (to_shared_playlists mine)
to_shared_playlists-set_playlist_public_example = to_shared_playlists-set_playlist_public mine "p1"

mine-IsStorable : All IsStorable mine
mine-IsStorable = ((((omega arith, tt), tt), tt), tt)

load_playlists-save_playlists_example : load_playlists (save_playlists blank mine) ≡ mine
load_playlists-save_playlists_example =
    load_playlists-save_playlists blank mine refl mine-IsStorable
