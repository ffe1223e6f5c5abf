-- ===== src/Client/Ops/Wire.antt =====
-- packages/room/src/lib/room-client.ts and apps/server/src/handle-op.ts: what the server reads of an
-- op, against what the client meant by it.
use spotjam.Prelude.{
  pos, ◌<ℤ◌, String, eq_iff, ◌≢◌, Option, none, some, List, [], ◌∷◌, arith, ◌≡◌, refl,
}
use spotjam.Protocol.Types.{QueueItem, PlaylistTrack, SharedPlaylist}
use spotjam.Protocol.Value.{
  Value, str, field, find_field, array_of, all_of, to_list, non_empty_string, string_of, bool_of,
}
use spotjam.Protocol.Ops.{OpType, is_op, op_type_of}
use spotjam.Server.RoomState.Core.{RoomState}
use spotjam.Server.RoomState.Ops
use spotjam.Server.HandleOp.{
  OpContext, done, queue_item, playlist_track, shared_playlist, duration, item_ids, before_item_id,
  move_args, finite_position, apply_op,
}
use spotjam.Client.Ops.{
  Op, element_values, array, item_value, track_value, playlist_value, op_value,
}

abbrev pub All {ℓ} : {A : Type ℓ} → (A → Type 0) → List A → Type 0
All P [] = Unit {0}
All P (x ∷ xs) = P x × All P xs

-- What the server asks of an item, of a shared track and of a shared playlist.
abbrev pub IsItem : QueueItem → Type 0
IsItem item = (item.id ≢ "") × (item.uri ≢ "") × (item.track_id ≢ "") × (pos 0 <ℤ item.duration_ms)

abbrev pub IsTrack : PlaylistTrack → Type 0
IsTrack track = (track.uri ≢ "") × (track.track_id ≢ "") × (pos 0 <ℤ track.duration_ms)

abbrev pub IsShared : SharedPlaylist → Type 0
IsShared playlist = (playlist.id ≢ "") × All IsTrack playlist.tracks

abbrev pub IsId : String → Type 0
IsId id = id ≢ ""

-- What the server asks of an op.
unfoldable pub IsSendable : Op → Type 0
IsSendable (Op.enqueue items) = All IsItem items
IsSendable (Op.remove id) = id ≢ ""
IsSendable (Op.move_many ids none) = (ids ≢ []) × All IsId ids
IsSendable (Op.move_many ids (some before)) = (ids ≢ []) × All IsId ids × (before ≢ "")
IsSendable (Op.send_to_top id) = id ≢ ""
IsSendable (Op.set_public_playlists playlists) = All IsShared playlists
IsSendable (Op.view_playlists owner) = owner ≢ ""
IsSendable op = Unit {0}

-- The op's type.
unfoldable pub type_of : Op → OpType
type_of Op.join_room = OpType.join_room
type_of Op.leave_room = OpType.leave_room
type_of (Op.set_broadcasting b) = OpType.set_broadcasting
type_of (Op.enqueue items) = OpType.enqueue
type_of (Op.remove id) = OpType.remove
type_of (Op.move_many ids before) = OpType.move_many
type_of (Op.send_to_top id) = OpType.send_to_top
type_of Op.shuffle = OpType.shuffle
type_of Op.clear_queue = OpType.clear_queue
type_of (Op.set_paused paused) = OpType.set_paused
type_of (Op.seek position) = OpType.seek
type_of Op.skip = OpType.skip
type_of (Op.set_public_playlists playlists) = OpType.set_public_playlists
type_of (Op.view_playlists owner) = OpType.view_playlists

-- What the room itself does at the op that is meant. A join, a leave and a look at playlists are
-- the session's.
unfoldable pub meant : RoomState → String → Op → OpContext → RoomState
meant s pk Op.join_room ctx = s
meant s pk Op.leave_room ctx = s
meant s pk (Op.set_broadcasting b) ctx = Ops.set_broadcasting s pk b
meant s pk (Op.enqueue items) ctx = Ops.enqueue s pk items
meant s pk (Op.remove id) ctx = Ops.remove s pk id
meant s pk (Op.move_many ids before) ctx = Ops.move_many s pk ids before
meant s pk (Op.send_to_top id) ctx = Ops.send_to_top s pk id
meant s pk Op.shuffle ctx = Ops.shuffle s pk ctx.rng
meant s pk Op.clear_queue ctx = Ops.clear_queue s pk
meant s pk (Op.set_paused paused) ctx = Ops.set_paused s paused ctx.now
meant s pk (Op.seek position) ctx = Ops.seek s position ctx.now
meant s pk Op.skip ctx = Ops.advance s ctx.now
meant s pk (Op.set_public_playlists playlists) ctx = Ops.set_public_playlists s pk playlists
meant s pk (Op.view_playlists owner) ctx = s

-- Reading back what was written.
all_of_values :
    {A : Type 0} (value : A → Value) (read : Value → Option A) (P : A → Type 0) (xs : List A)
    → ((x : A) → P x → read (value x) ≡ some x)
    → All P xs
    → all_of read (to_list (element_values value xs)) ≡ some xs
unfolding all_of to_list element_values
all_of_values value read P [] back h = refl
all_of_values value read P (x ∷ xs) back h = rw (back x h.0, all_of_values value read P xs back h.1)

pub array_of-array :
    {A : Type 0} (value : A → Value) (read : Value → Option A) (P : A → Type 0) (xs : List A)
    → ((x : A) → P x → read (value x) ≡ some x)
    → All P xs
    → array_of read (array value xs) ≡ some xs
unfolding array_of
array_of-array = all_of_values

non_empty_string-str : (s : String) → s ≢ "" → non_empty_string (str s) ≡ some s
unfolding non_empty_string
non_empty_string-str s h = ground (arith, eq_iff s "")

pub queue_item-item_value : (i : QueueItem) → IsItem i → queue_item (item_value i) ≡ some i
unfolding queue_item item_value field find_field non_empty_string duration
queue_item-item_value i h = ground (arith, eq_iff i.id "", eq_iff i.uri "", eq_iff i.track_id "")

playlist_track-track_value :
    (t : PlaylistTrack) → IsTrack t → playlist_track (track_value t) ≡ some t
unfolding playlist_track track_value field find_field non_empty_string duration
playlist_track-track_value t h = ground (arith, eq_iff t.uri "", eq_iff t.track_id "")

shared_playlist-playlist_value :
    (p : SharedPlaylist) → IsShared p → shared_playlist (playlist_value p) ≡ some p
unfolding shared_playlist playlist_value field find_field string_of
shared_playlist-playlist_value p h = rw (
  non_empty_string-str p.id h.0,
  array_of-array track_value playlist_track IsTrack p.tracks playlist_track-track_value h.1,
)

pub is_op-op_value : (room_id : String) (op : Op) → is_op (op_value room_id op) ≡ some (type_of op)
unfolding is_op op_value field find_field string_of op_type_of type_of
is_op-op_value room_id Op.join_room = refl
is_op-op_value room_id Op.leave_room = refl
is_op-op_value room_id (Op.set_broadcasting b) = refl
is_op-op_value room_id (Op.enqueue items) = refl
is_op-op_value room_id (Op.remove id) = refl
is_op-op_value room_id (Op.move_many ids before) = refl
is_op-op_value room_id (Op.send_to_top id) = refl
is_op-op_value room_id Op.shuffle = refl
is_op-op_value room_id Op.clear_queue = refl
is_op-op_value room_id (Op.set_paused paused) = refl
is_op-op_value room_id (Op.seek position) = refl
is_op-op_value room_id Op.skip = refl
is_op-op_value room_id (Op.set_public_playlists playlists) = refl
is_op-op_value room_id (Op.view_playlists owner) = refl

item_ids-array :
    (id : String) (ids : List String)
    → All IsId (id ∷ ids)
    → item_ids (array str (id ∷ ids)) ≡ some (id ∷ ids)
unfolding item_ids
item_ids-array id ids h =
    rw (array_of-array str non_empty_string IsId (id ∷ ids) non_empty_string-str h, item_ids) refl

before_item_id-str : (id : String) → id ≢ "" → before_item_id (str id) ≡ some (some id)
unfolding before_item_id
before_item_id-str id h = rw (non_empty_string-str id h)

move_args-move_many :
    (room_id : String) (ids : List String) (before : Option String)
    → IsSendable (Op.move_many ids before)
    → move_args (op_value room_id (Op.move_many ids before)) ≡ some (ids, before)
unfolding move_args op_value field find_field IsSendable
move_args-move_many room_id [] none h = absurd (h.0 refl)
move_args-move_many room_id [] (some b) h = absurd (h.0 refl)
move_args-move_many room_id (id ∷ ids) none h = rw (item_ids-array id ids h.1, before_item_id) refl
move_args-move_many room_id (id ∷ ids) (some b) h =
    rw (item_ids-array id ids h.1, before_item_id-str b h.2)

pub apply_op-op_value :
    (room_id : String) (op : Op) (s : RoomState) (pk : String) (ctx : OpContext)
    → IsSendable op
    → apply_op s pk (type_of op) (op_value room_id op) ctx ≡ done (meant s pk op ctx)
unfolding apply_op op_value field find_field type_of meant bool_of finite_position IsSendable
apply_op-op_value room_id Op.join_room s pk ctx h = refl
apply_op-op_value room_id Op.leave_room s pk ctx h = refl
apply_op-op_value room_id (Op.set_broadcasting b) s pk ctx h = refl
apply_op-op_value room_id (Op.enqueue items) s pk ctx h =
    rw (array_of-array item_value queue_item IsItem items queue_item-item_value h)
apply_op-op_value room_id (Op.remove id) s pk ctx h = rw (non_empty_string-str id h)
apply_op-op_value room_id (Op.move_many ids before) s pk ctx h =
    rw (move_args-move_many room_id ids before h)
apply_op-op_value room_id (Op.send_to_top id) s pk ctx h = rw (non_empty_string-str id h)
apply_op-op_value room_id Op.shuffle s pk ctx h = refl
apply_op-op_value room_id Op.clear_queue s pk ctx h = refl
apply_op-op_value room_id (Op.set_paused paused) s pk ctx h = refl
apply_op-op_value room_id (Op.seek position) s pk ctx h = refl
apply_op-op_value room_id Op.skip s pk ctx h = refl
apply_op-op_value room_id (Op.set_public_playlists playlists) s pk ctx h = rw (
    array_of-array playlist_value shared_playlist IsShared playlists shared_playlist-playlist_value
      h)
apply_op-op_value room_id (Op.view_playlists owner) s pk ctx h = refl

-- The payload that a client makes of a sendable op is read by the room as that op.
pub op_value_read :
    (room_id : String) (op : Op) (s : RoomState) (pk : String) (ctx : OpContext)
    → IsSendable op
    → (is_op (op_value room_id op) ≡ some (type_of op))
      × (apply_op s pk (type_of op) (op_value room_id op) ctx ≡ done (meant s pk op ctx))
op_value_read room_id op s pk ctx h =
    (is_op-op_value room_id op, apply_op-op_value room_id op s pk ctx h)
