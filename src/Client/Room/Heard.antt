-- ===== src/Client/Room/Heard.antt =====
-- apps/desktop/src/lib/room.ts: whose news a room's view shows.
use spotjam.Prelude.{
  ℤ, String, Bool, true, false, not, ◌==◌, eq_iff, ◌≢◌, if◌then◌else◌, none, some, List, [], ◌∷◌,
  arith, ◌≡◌, refl, ◌&&◌,
}
use spotjam.Protocol.Types.{QueueItem, RoomSnapshot}
use spotjam.Server.World.{ServerEvent}
use spotjam.Client.View.{
  SocketPhase, connecting, connected, disconnected, reduce, take_snapshot, queue_to_restore,
}
use spotjam.Client.QueueStore.{Storage, load_queue}
use spotjam.Client.Ops.{Op}
use spotjam.Client.Room.{
  RoomClient, Happening, news, ready, socket_status, gestured, appended, replaced, destroyed,
  happen, happenings, heard, new_room_client, set_synced, join_again, persist_queue,
  restore_broadcasting, is_elsewhere, see, after_seeing, on_event, on_socket_status_change,
  append_to_my_queue, replace_my_queue, gesture, destroy, enqueue_some, still_synced, send_op,
  op_of,
}

-- The snapshot in the view is one of this room, and there is one once the view says synced.
pub record IsOwn (c : RoomClient) : Type 0 where
  pub own : (s : RoomSnapshot) → c.view.snapshot ≡ some s → s.room_id ≡ c.room_id
  pub backed : c.view.status.synced ≡ true → c.view.snapshot ≢ none

-- What the invariant looks at.
record SameSight (c d : RoomClient) : Type 0 where
  same_room : d.room_id ≡ c.room_id
  same_snapshot : d.view.snapshot ≡ c.view.snapshot
  less_synced : d.view.status.synced ≡ true → c.view.status.synced ≡ true

SameSight-IsOwn : {c d : RoomClient} → SameSight c d → IsOwn c → IsOwn d
SameSight-IsOwn {c} {d} e v = record {
  own = λ s h. rw (e.same_room) (v.own s (rw (e.same_snapshot) at h));
  backed = λ h. rw (e.same_snapshot) (v.backed (e.less_synced h));
}

SameSight-refl : (c : RoomClient) → SameSight c c
SameSight-refl c = record { same_room = refl; same_snapshot = refl; less_synced = λ h. h }

enqueue_some_sight : (c : RoomClient) (items : List QueueItem) → SameSight c (enqueue_some c items)
enqueue_some_sight c [] = SameSight-refl c
enqueue_some_sight c (i ∷ is) = record {
  same_room = refl;
  same_snapshot = refl;
  less_synced = λ h. h;
}

if_sight :
    (c : RoomClient) (b : Bool) (x y : RoomClient)
    → SameSight c x
    → SameSight c y
    → SameSight c (if b then x else y)
if_sight c true x y p q = p
if_sight c false x y p q = q

if_IsOwn :
    (b : Bool) (x y : RoomClient) → IsOwn x → (b ≡ false → IsOwn y) → IsOwn (if b then x else y)
if_IsOwn true x y p q = p
if_IsOwn false x y p q = q refl

persist_queue_sight :
    (c : RoomClient) (s : RoomSnapshot) (b : Bool) → SameSight c (persist_queue c s b)
unfolding persist_queue
persist_queue_sight c s b =
    let offered =
      if_sight c (not b && c.view.status.synced)
        (enqueue_some c (queue_to_restore (load_queue c.storage c.room_id) s)) c
        (enqueue_some_sight c _) (SameSight-refl c) in
    record {
      same_room = offered.same_room;
      same_snapshot = offered.same_snapshot;
      less_synced = offered.less_synced;
    }

restore_broadcasting_sight : (c : RoomClient) (b : Bool) → SameSight c (restore_broadcasting c b)
unfolding restore_broadcasting
restore_broadcasting_sight c b =
    if_sight c _ _ _ (record { same_room = refl; same_snapshot = refl; less_synced = λ h. h })
      (record { same_room = refl; same_snapshot = refl; less_synced = λ h. h })

-- An event that is no snapshot leaves the snapshot.
see_sight :
    (c : RoomClient) (event : ServerEvent) (now : ℤ)
    → ((s : RoomSnapshot) → event ≢ ServerEvent.room_state s)
    → SameSight c (see c event now)
unfolding see reduce
see_sight c (ServerEvent.room_state s) now no_snapshot = absurd (no_snapshot s refl)
see_sight c (ServerEvent.registered pubkey username) now no_snapshot = record {
  same_room = refl;
  same_snapshot = refl;
  less_synced = λ h. h;
}
see_sight c (ServerEvent.room_list rooms) now no_snapshot = record {
  same_room = refl;
  same_snapshot = refl;
  less_synced = λ h. h;
}
see_sight c (ServerEvent.room_detail s) now no_snapshot = record {
  same_room = refl;
  same_snapshot = refl;
  less_synced = λ h. h;
}
see_sight c (ServerEvent.playlists room_id owner playlists) now no_snapshot = record {
  same_room = refl;
  same_snapshot = refl;
  less_synced = λ h. h;
}
see_sight c (ServerEvent.error code) now no_snapshot = record {
  same_room = refl;
  same_snapshot = refl;
  less_synced = λ h. h;
}

see_snapshot-IsOwn :
    (c : RoomClient) (s : RoomSnapshot) (now : ℤ)
    → not (s.room_id == c.room_id) ≡ false
    → IsOwn (see c (ServerEvent.room_state s) now)
unfolding see reduce take_snapshot
see_snapshot-IsOwn c s now here = record {
  own = λ t h. ground (arith, eq_iff s.room_id c.room_id);
  backed = λ h none_seen. cc;
}

if_kept :
    (c : RoomClient) (b : Bool) (d : RoomClient)
    → SameSight c d
    → IsOwn c
    → IsOwn (if b then c else d)
if_kept c b d e v = if_IsOwn b c d v (λ _. SameSight-IsOwn e v)

on_event-IsOwn :
    (c : RoomClient) (event : ServerEvent) (now : ℤ) → IsOwn c → IsOwn (on_event c event now)
unfolding on_event is_elsewhere after_seeing
on_event-IsOwn c (ServerEvent.room_state s) now v =
    if_IsOwn (not (s.room_id == c.room_id)) c _ v λ here.
      let was_synced = c.view.status.synced in
      let seen = see c (ServerEvent.room_state s) now in
      SameSight-IsOwn (restore_broadcasting_sight (persist_queue seen s was_synced) was_synced)
        (SameSight-IsOwn (persist_queue_sight seen s was_synced) (see_snapshot-IsOwn c s now here))
on_event-IsOwn c (ServerEvent.playlists room_id owner playlists) now v =
    if_kept c (not (room_id == c.room_id)) _ (see_sight c _ now (λ s e. cc)) v
on_event-IsOwn c (ServerEvent.registered pubkey username) now v =
    SameSight-IsOwn (see_sight c _ now (λ s e. cc)) v
on_event-IsOwn c (ServerEvent.room_list rooms) now v =
    SameSight-IsOwn (see_sight c _ now (λ s e. cc)) v
on_event-IsOwn c (ServerEvent.room_detail s) now v =
    SameSight-IsOwn (see_sight c _ now (λ s e. cc)) v
on_event-IsOwn c (ServerEvent.error code) now v = SameSight-IsOwn (see_sight c _ now (λ s e. cc)) v

still_synced-le : (live : SocketPhase) (b : Bool) → still_synced live b ≡ true → b ≡ true
still_synced-le connecting b h = h
still_synced-le connected b h = h
still_synced-le disconnected b h = cc

send_op-IsOwn : (c : RoomClient) (op : Op) → IsOwn c → IsOwn (send_op c op)
send_op-IsOwn c op v =
    SameSight-IsOwn {c = c} {d = send_op c op}
      (record { same_room = refl; same_snapshot = refl; less_synced = λ h. h }) v

heard-IsOwn :
    (c : RoomClient) (handler : RoomClient → RoomClient)
    → IsOwn c
    → IsOwn (handler c)
    → IsOwn (heard c handler)
unfolding heard
heard-IsOwn c handler v w = if_IsOwn c.closed c (handler c) v (λ _. w)

socket_status_sight :
    (c : RoomClient) (live : SocketPhase) → SameSight c (on_socket_status_change c live)
unfolding on_socket_status_change set_synced
socket_status_sight c live = record {
  same_room = refl;
  same_snapshot = refl;
  less_synced = still_synced-le live c.view.status.synced;
}

destroy_sight : (c : RoomClient) → SameSight c (destroy c)
unfolding destroy
destroy_sight c =
    if_sight c c.closed c (send_op (record c { closed = true }) Op.leave_room) (SameSight-refl c)
      (record { same_room = refl; same_snapshot = refl; less_synced = λ h. h })

happen-IsOwn : (c : RoomClient) (h : Happening) → IsOwn c → IsOwn (happen c h)
unfolding happen gesture append_to_my_queue replace_my_queue join_again
happen-IsOwn c (news event now) v =
    heard-IsOwn c (λ c. on_event c event now) v (on_event-IsOwn c event now v)
happen-IsOwn c ready v = heard-IsOwn c join_again v (send_op-IsOwn c Op.join_room v)
happen-IsOwn c (socket_status live) v =
    heard-IsOwn c (λ c. on_socket_status_change c live) v
      (SameSight-IsOwn (socket_status_sight c live) v)
happen-IsOwn c (gestured g) v = send_op-IsOwn c (op_of g) v
happen-IsOwn c (appended items) v = SameSight-IsOwn (enqueue_some_sight c items) v
happen-IsOwn c (replaced items) v =
    SameSight-IsOwn (enqueue_some_sight (send_op c Op.clear_queue) items)
      (send_op-IsOwn c Op.clear_queue v)
happen-IsOwn c destroyed v = SameSight-IsOwn (destroy_sight c) v

happenings-kept : (c : RoomClient) (hs : List Happening) → IsOwn c → IsOwn (happenings c hs)
unfolding happenings
happenings-kept c [] v = v
happenings-kept c (h ∷ hs) v = happenings-kept (happen c h) hs (happen-IsOwn c h v)

new_room_client-IsOwn :
    (room_id me : String) (live : SocketPhase) (is_ready : Bool) (storage : Storage)
    → IsOwn (new_room_client room_id me live is_ready storage)
unfolding new_room_client set_synced join_again
new_room_client-IsOwn room_id me live true storage = record { own = λ s h. cc; backed = λ h. cc }
new_room_client-IsOwn room_id me live false storage = record { own = λ s h. cc; backed = λ h. cc }

-- Whatever happens to a room client from its start on, the snapshot in its view is one of its own
-- room, and there is one whenever it says that it is synced.
pub happenings-IsOwn :
    (room_id me : String) (live : SocketPhase) (is_ready : Bool) (storage : Storage)
    (hs : List Happening)
    → IsOwn (happenings (new_room_client room_id me live is_ready storage) hs)
happenings-IsOwn room_id me live is_ready storage hs =
    happenings-kept _ hs (new_room_client-IsOwn room_id me live is_ready storage)
