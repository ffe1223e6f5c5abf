-- ===== src/Server/HandleOp.antt =====
-- apps/server/src/handle-op.ts: validate an op, apply it between two settlements. A validator
-- returns the value that it vouches for.
pub mod Laws
pub mod Others
use spotjam.Prelude.{ℤ, pos, ltb_ℤ, String, if◌then◌else◌, Option, none, some, List, [], ◌∷◌, ◌>>=◌}
use spotjam.Prelude.Dict
use spotjam.Protocol.Types.{QueueItem, PlaylistTrack, SharedPlaylist}
use spotjam.Protocol.Value.{Value, null, num, field, string_of, bool_of, non_empty_string, array_of}
use spotjam.Protocol.Ops.{OpType, ErrorCode, not_in_room, malformed}
use spotjam.Server.RoomState.Core.{RoomState}
use spotjam.Server.RoomState.Ops
use spotjam.Server.RoomState.Ops.{Rng}

pub record OpContext : Type 0 where
  pub now : ℤ
  pub rng : Rng

pub record OpOutcome : Type 0 where
  pub state : RoomState
  pub error : Option ErrorCode

-- `isDuration`
unfoldable pub duration : Value → Option ℤ
duration (num n) = if ltb_ℤ (pos 0) n then some n else none
duration v = none

-- `isFinitePosition`
unfoldable pub finite_position : Value → Option ℤ
finite_position (num n) = some n
finite_position v = none

-- `isQueueItem`
unfoldable pub queue_item : Value → Option QueueItem
unfolding field non_empty_string duration
queue_item item = do
  id ← non_empty_string (field "id" item)
  uri ← non_empty_string (field "uri" item)
  track_id ← non_empty_string (field "trackId" item)
  duration_ms ← duration (field "durationMs" item)
  some (record { id = id; uri = uri; track_id = track_id; duration_ms = duration_ms })

-- `isPlaylistTrack`
unfoldable pub playlist_track : Value → Option PlaylistTrack
unfolding field non_empty_string duration
playlist_track track = do
  uri ← non_empty_string (field "uri" track)
  track_id ← non_empty_string (field "trackId" track)
  duration_ms ← duration (field "durationMs" track)
  some (record { uri = uri; track_id = track_id; duration_ms = duration_ms })

-- `isSharedPlaylist`
unfoldable pub shared_playlist : Value → Option SharedPlaylist
unfolding field non_empty_string string_of array_of playlist_track
shared_playlist playlist = do
  id ← non_empty_string (field "id" playlist)
  name ← string_of (field "name" playlist)
  tracks ← array_of playlist_track (field "tracks" playlist)
  some (record { id = id; name = name; tracks = tracks })

-- `Array.isArray(op.itemIds) && op.itemIds.length > 0 && op.itemIds.every(isNonEmptyString)`
unfoldable pub item_ids : Value → Option (List String)
unfolding non_empty_string array_of
item_ids ids = elim (array_of non_empty_string ids) [
  | none ↦ none
  | some [] ↦ none
  | some (i ∷ is) ↦ some (i ∷ is)
]

-- `op.beforeItemId === null || isNonEmptyString(op.beforeItemId)`
unfoldable pub before_item_id : Value → Option (Option String)
unfolding non_empty_string
before_item_id null = some none
before_item_id v = do id ← non_empty_string v; some (some id)

unfoldable pub move_args : Value → Option (List String × Option String)
unfolding item_ids before_item_id field
move_args op = do
  ids ← item_ids (field "itemIds" op)
  before ← before_item_id (field "beforeItemId" op)
  some (ids, before)

abbrev pub done : RoomState → OpOutcome
done state = record { state = state; error = none }

-- `malformed`
abbrev pub refused : RoomState → OpOutcome
refused state = record { state = state; error = some malformed }

-- Apply what was read, or refuse the op.
abbrev pub with_read {ℓ} : {A : Type ℓ} → RoomState → Option A → (A → RoomState) → OpOutcome
with_read state none f = refused state
with_read state (some a) f = done (f a)

-- `applyOp`
unfoldable pub apply_op : RoomState → String → OpType → Value → OpContext → OpOutcome
apply_op state pubkey OpType.join_room op ctx = done state
apply_op state pubkey OpType.leave_room op ctx = done state
apply_op state pubkey OpType.set_broadcasting op ctx =
    with_read state (bool_of (field "broadcasting" op)) (λ b. Ops.set_broadcasting state pubkey b)
apply_op state pubkey OpType.enqueue op ctx =
    with_read state (array_of queue_item (field "items" op))
      (λ items. Ops.enqueue state pubkey items)
apply_op state pubkey OpType.remove op ctx =
    with_read state (non_empty_string (field "itemId" op)) (λ id. Ops.remove state pubkey id)
apply_op state pubkey OpType.move_many op ctx =
    with_read state (move_args op) (λ a. Ops.move_many state pubkey a.0 a.1)
apply_op state pubkey OpType.send_to_top op ctx =
    with_read state (non_empty_string (field "itemId" op)) (λ id. Ops.send_to_top state pubkey id)
apply_op state pubkey OpType.shuffle op ctx = done (Ops.shuffle state pubkey ctx.rng)
apply_op state pubkey OpType.clear_queue op ctx = done (Ops.clear_queue state pubkey)
apply_op state pubkey OpType.set_paused op ctx =
    with_read state (bool_of (field "paused" op)) (λ paused. Ops.set_paused state paused ctx.now)
apply_op state pubkey OpType.seek op ctx =
    with_read state (finite_position (field "positionMs" op))
      (λ position. Ops.seek state position ctx.now)
apply_op state pubkey OpType.skip op ctx = done (Ops.advance state ctx.now)
apply_op state pubkey OpType.set_public_playlists op ctx =
    with_read state (array_of shared_playlist (field "playlists" op))
      (λ playlists. Ops.set_public_playlists state pubkey playlists)
apply_op state pubkey OpType.view_playlists op ctx = done state

-- The settlement after an op that was not refused.
unfoldable pub finish : OpOutcome → ℤ → OpOutcome
finish outcome now = elim outcome.error [
  | some e ↦ outcome
  | none ↦ done (Ops.settle_start outcome.state now)
]

-- `handleOp`
unfoldable pub handle_op : RoomState → String → OpType → Value → OpContext → OpOutcome
unfolding apply_op finish
handle_op state pubkey type op ctx =
    if Dict.has pubkey state.members
    then finish (apply_op (Ops.settle state ctx.now) pubkey type op ctx) ctx.now
    else record { state = state; error = some not_in_room }
