-- ===== src/Client/Room.antt =====
-- apps/desktop/src/lib/room.ts: a joined room over a shared connection. What it hands to the
-- connection is a log; `live` is the phase that the connection reports. Listeners are left out.
pub mod Heard
pub mod Restored
use spotjam.Prelude.{
  ℤ, String, Bool, true, false, not, ◌&&◌, ◌==◌, if◌then◌else◌, Option, none, some, List, [], ◌∷◌,
  ◌++◌,
}
use spotjam.Protocol.Types.{QueueItem, SharedPlaylist, RoomSnapshot}
use spotjam.Server.World.{ServerEvent}
use spotjam.Client.View.{
  SocketPhase, connected, connecting, disconnected, ConnectionStatus, RoomView, initial_view,
  reduce, queue_to_restore, is_broadcasting,
}
use spotjam.Client.Ops.{Op, seek_to}
use spotjam.Client.QueueStore.{Storage, load_queue, save_queue}

-- `RoomClient`, with the browser's storage
pub record RoomClient : Type 0 where
  pub room_id : String
  pub my_pubkey : String
  pub view : RoomView
  pub closed : Bool
  pub was_broadcasting : Bool
  pub live : SocketPhase
  pub storage : Storage
  pub asked : List Op

-- `#sendOp`
abbrev pub send_op : RoomClient → Op → RoomClient
send_op c op = record c { asked = c.asked ++ op ∷ [] }

-- `#join`
unfoldable pub join_again : RoomClient → RoomClient
join_again c = send_op c Op.join_room

-- `#setSynced`
unfoldable pub set_synced : RoomClient → Bool → RoomClient
set_synced c synced = record c {
  view = record c.view { status = record { socket = c.live; synced = synced } };
}

-- `constructor`
unfoldable pub new_room_client : String → String → SocketPhase → Bool → Storage → RoomClient
unfolding set_synced join_again
new_room_client room_id my_pubkey live is_ready storage =
    let fresh : RoomClient = record {
      room_id = room_id;
      my_pubkey = my_pubkey;
      view = initial_view;
      closed = false;
      was_broadcasting = false;
      live = live;
      storage = storage;
      asked = [];
    } in
    set_synced (if is_ready then join_again fresh else fresh) false

abbrev pub enqueue_some : RoomClient → List QueueItem → RoomClient
enqueue_some c [] = c
enqueue_some c (i ∷ is) = send_op c (Op.enqueue (i ∷ is))

-- `#persistQueue`
unfoldable pub persist_queue : RoomClient → RoomSnapshot → Bool → RoomClient
persist_queue c snapshot was_synced =
    let offered =
      if not was_synced && c.view.status.synced
      then enqueue_some c (queue_to_restore (load_queue c.storage c.room_id) snapshot)
      else c in
    record offered { storage = save_queue offered.storage c.room_id snapshot.my_queue }

-- `#restoreBroadcasting`
unfoldable pub restore_broadcasting : RoomClient → Bool → RoomClient
restore_broadcasting c was_synced =
    let broadcasting = is_broadcasting c.view c.my_pubkey in
    if not was_synced && (c.view.status.synced && (c.was_broadcasting && not broadcasting))
    then send_op c (Op.set_broadcasting true)
    else record c { was_broadcasting = broadcasting }

-- `event.type === … && event.roomId !== this.roomId`
unfoldable pub is_elsewhere : RoomClient → ServerEvent → Bool
is_elsewhere c (ServerEvent.room_state snapshot) = not (snapshot.room_id == c.room_id)
is_elsewhere c (ServerEvent.playlists room_id owner playlists) = not (room_id == c.room_id)
is_elsewhere c event = false

-- The view as it is after the reducer, with the live socket.
unfoldable pub see : RoomClient → ServerEvent → ℤ → RoomClient
see c event now =
    let reduced = reduce c.view event now in
    record c {
      view = record reduced { status = record { socket = c.live; synced = reduced.status.synced } };
    }

unfoldable pub after_seeing : RoomClient → ServerEvent → Bool → RoomClient
unfolding persist_queue restore_broadcasting
after_seeing c (ServerEvent.room_state snapshot) was_synced =
    restore_broadcasting (persist_queue c snapshot was_synced) was_synced
after_seeing c event was_synced = c

-- `#onEvent`
unfoldable pub on_event : RoomClient → ServerEvent → ℤ → RoomClient
unfolding is_elsewhere see after_seeing
on_event c event now =
    if is_elsewhere c event then c else after_seeing (see c event now) event c.view.status.synced

abbrev pub still_synced : SocketPhase → Bool → Bool
still_synced disconnected synced = false
still_synced phase synced = synced

-- `#onSocketStatusChange`
unfoldable pub on_socket_status_change : RoomClient → SocketPhase → RoomClient
unfolding set_synced
on_socket_status_change c live =
    set_synced (record c { live = live }) (still_synced live c.view.status.synced)

-- `appendToMyQueue`, and `addToMyQueue` with one item
unfoldable pub append_to_my_queue : RoomClient → List QueueItem → RoomClient
append_to_my_queue c items = enqueue_some c items

-- `replaceMyQueue`
unfoldable pub replace_my_queue : RoomClient → List QueueItem → RoomClient
replace_my_queue c items = enqueue_some (send_op c Op.clear_queue) items

-- The gestures that are one op each.
pub data Gesture : Type 0 where
  remove_from_my_queue send_to_top_of_my_queue view_playlists : String → Gesture
  move_many_in_my_queue : List String → Option String → Gesture
  shuffle_my_queue clear_my_queue skip : Gesture
  set_public_playlists : List SharedPlaylist → Gesture
  set_broadcasting set_paused : Bool → Gesture
  seek : ℤ → Gesture

unfoldable pub op_of : Gesture → Op
unfolding seek_to
op_of (remove_from_my_queue id) = Op.remove id
op_of (send_to_top_of_my_queue id) = Op.send_to_top id
op_of (view_playlists owner) = Op.view_playlists owner
op_of (move_many_in_my_queue ids before) = Op.move_many ids before
op_of shuffle_my_queue = Op.shuffle
op_of clear_my_queue = Op.clear_queue
op_of skip = Op.skip
op_of (set_public_playlists playlists) = Op.set_public_playlists playlists
op_of (set_broadcasting on) = Op.set_broadcasting on
op_of (set_paused paused) = Op.set_paused paused
op_of (seek position_ms) = seek_to position_ms

unfoldable pub gesture : RoomClient → Gesture → RoomClient
unfolding op_of
gesture c g = send_op c (op_of g)

-- `destroy`
unfoldable pub destroy : RoomClient → RoomClient
destroy c = if c.closed then c else send_op (record c { closed = true }) Op.leave_room

-- What can happen to a room: the connection calls its listeners, and the app calls its methods.
pub data Happening : Type 0 where
  news : ServerEvent → ℤ → Happening
  ready : Happening
  socket_status : SocketPhase → Happening
  gestured : Gesture → Happening
  appended replaced : List QueueItem → Happening
  destroyed : Happening

-- A destroyed room has unsubscribed from its connection.
unfoldable pub heard : RoomClient → (RoomClient → RoomClient) → RoomClient
heard c handler = if c.closed then c else handler c

unfoldable pub happen : RoomClient → Happening → RoomClient
unfolding heard on_event join_again on_socket_status_change gesture append_to_my_queue
    replace_my_queue destroy
happen c (news event now) = heard c (λ c. on_event c event now)
happen c ready = heard c join_again
happen c (socket_status live) = heard c (λ c. on_socket_status_change c live)
happen c (gestured g) = gesture c g
happen c (appended items) = append_to_my_queue c items
happen c (replaced items) = replace_my_queue c items
happen c destroyed = destroy c

unfoldable pub happenings : RoomClient → List Happening → RoomClient
unfolding happen
happenings c [] = c
happenings c (h ∷ hs) = happenings (happen c h) hs
