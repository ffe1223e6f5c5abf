-- ===== src/Client/Ops.antt =====
-- packages/protocol/src/ops.ts and packages/room/src/lib/room-client.ts: the ops that a client
-- makes of its gestures, and the payloads that they are on the wire.
pub mod Wire
pub mod Answer
use spotjam.Prelude.{
  ℤ, pos, max_ℤ, ltb_ℤ, String, Bool, if◌then◌else◌, Option, none, some, List, [], ◌∷◌, map,
  keep_if, ℕ, suc,
}
use spotjam.Protocol.Types.{QueueItem, PlaylistTrack, SharedPlaylist}
use spotjam.Protocol.Value.{
  Value, Items, Fields, null, bool, num, str, arr, obj, nil, cons, end, entry,
}
use spotjam.Protocol.Ops.{OpType}

-- `Op`, less the room that each names
pub data Op : Type 0 where
  join_room leave_room : Op
  set_broadcasting : Bool → Op
  enqueue : List QueueItem → Op
  remove : String → Op
  move_many : List String → Option String → Op
  send_to_top : String → Op
  shuffle clear_queue : Op
  set_paused : Bool → Op
  seek : ℤ → Op
  skip : Op
  set_public_playlists : List SharedPlaylist → Op
  view_playlists : String → Op

-- `ops.seek`
unfoldable pub seek_to : ℤ → Op
seek_to position_ms = seek (max_ℤ (pos 0) position_ms)

unfoldable pub element_values : {A : Type 0} → (A → Value) → List A → Items
element_values value [] = nil
element_values value (a ∷ as') = cons (value a) (element_values value as')

abbrev pub array : {A : Type 0} → (A → Value) → List A → Value
array value as' = arr (element_values value as')

-- `QueueItem`
unfoldable pub item_value : QueueItem → Value
item_value item = obj (
    entry "id" (str item.id) (
      entry "uri" (str item.uri)
        (entry "trackId" (str item.track_id) (entry "durationMs" (num item.duration_ms) end))))

-- `PlaylistTrack`
unfoldable pub track_value : PlaylistTrack → Value
track_value track = obj (
    entry "uri" (str track.uri)
      (entry "trackId" (str track.track_id) (entry "durationMs" (num track.duration_ms) end)))

-- `SharedPlaylist`
unfoldable pub playlist_value : SharedPlaylist → Value
unfolding track_value element_values
playlist_value playlist = obj (
    entry "id" (str playlist.id)
      (entry "name" (str playlist.name) (entry "tracks" (array track_value playlist.tracks) end)))

abbrev pub or_null : Option String → Value
or_null none = null
or_null (some s) = str s

abbrev tagged : String → String → Fields → Value
tagged type room_id rest = obj (entry "type" (str type) (entry "roomId" (str room_id) rest))

-- `ops`
unfoldable pub op_value : String → Op → Value
unfolding element_values item_value playlist_value
op_value room_id join_room = tagged "join-room" room_id end
op_value room_id leave_room = tagged "leave-room" room_id end
op_value room_id (set_broadcasting broadcasting) =
    tagged "set-broadcasting" room_id (entry "broadcasting" (bool broadcasting) end)
op_value room_id (enqueue items) =
    tagged "enqueue" room_id (entry "items" (array item_value items) end)
op_value room_id (remove item_id) = tagged "remove" room_id (entry "itemId" (str item_id) end)
op_value room_id (move_many item_ids before_item_id) =
    tagged "move-many" room_id
      (entry "itemIds" (array str item_ids) (entry "beforeItemId" (or_null before_item_id) end))
op_value room_id (send_to_top item_id) =
    tagged "send-to-top" room_id (entry "itemId" (str item_id) end)
op_value room_id shuffle = tagged "shuffle" room_id end
op_value room_id clear_queue = tagged "clear-queue" room_id end
op_value room_id (set_paused paused) =
    tagged "set-paused" room_id (entry "paused" (bool paused) end)
op_value room_id (seek position_ms) =
    tagged "seek" room_id (entry "positionMs" (num position_ms) end)
op_value room_id skip = tagged "skip" room_id end
op_value room_id (set_public_playlists playlists) =
    tagged "set-public-playlists" room_id (entry "playlists" (array playlist_value playlists) end)
op_value room_id (view_playlists owner_pubkey) =
    tagged "view-playlists" room_id (entry "ownerPubkey" (str owner_pubkey) end)

-- `DurationedTrack`
pub record DurationedTrack : Type 0 where
  pub uri : String
  pub track_id : String
  pub duration_ms : ℤ

-- `crypto.randomUUID`, one id for each call: the ids that it will give, by their place.
module _ (random_uuid : ℕ → String) where
  unfoldable pub mint : ℕ → List DurationedTrack → List QueueItem
  mint at [] = []
  mint at (track ∷ rest) =
      record {
        id = random_uuid at;
        uri = track.uri;
        track_id = track.track_id;
        duration_ms = track.duration_ms;
      }
      ∷ mint (suc at) rest

  -- `toQueueItems`
  unfoldable pub to_queue_items : List DurationedTrack → List QueueItem
  unfolding mint
  to_queue_items tracks = mint 0 (keep_if (λ track. ltb_ℤ (pos 0) track.duration_ms) tracks)
