-- ===== src/Client/QueueStore.antt =====
-- packages/room/src/lib/queue-store.ts: a client's own copy of its queue in each room. The store maps
-- a key to what `JSON.parse` leaves of the text under it, or to none where it would throw; a store
-- that is blocked takes no write.
pub mod Kept
use spotjam.Prelude.{
  ℤ, pos, ltb_ℤ, String, Bool, if◌then◌else◌, ◌==◌, Option, none, some, List, [], ◌∷◌, Map, ◌>>=◌,
}
use Prim.Native.String.{◌++◌}
use spotjam.Prelude.Dict
use spotjam.Protocol.Types.{QueueItem}
use spotjam.Protocol.Value.{Value, num, arr, field, non_empty_string, to_list}
use spotjam.Client.Ops.{array, item_value}

-- `localStorage`
pub record Storage : Type 0 where
  pub texts : Map (Option Value)
  pub writable : Bool

-- `keyFor`
unfoldable pub key_for : String → String
key_for room_id = "spotjam.queue." ++ room_id

-- `typeof value === "number" && Number.isInteger(value) && value > 0`
unfoldable pub whole_length : Value → Option ℤ
whole_length (num n) = if ltb_ℤ (pos 0) n then some n else none
whole_length v = none

-- `isQueueItem`, with the item that it found.
unfoldable pub stored_item : Value → Option QueueItem
unfolding field non_empty_string whole_length
stored_item value = do
  id ← non_empty_string (field "id" value)
  uri ← non_empty_string (field "uri" value)
  track_id ← non_empty_string (field "trackId" value)
  duration_ms ← whole_length (field "durationMs" value)
  some (record { id = id; uri = uri; track_id = track_id; duration_ms = duration_ms })

abbrev pub and_item : Option QueueItem → List QueueItem → List QueueItem
and_item none rest = rest
and_item (some item) rest = item ∷ rest

-- `parsed.filter(isQueueItem)`
unfoldable pub stored_items : List Value → List QueueItem
unfolding stored_item
stored_items [] = []
stored_items (v ∷ vs) = and_item (stored_item v) (stored_items vs)

unfoldable pub queue_in : Value → List QueueItem
unfolding to_list stored_items
queue_in (arr vs) = stored_items (to_list vs)
queue_in v = []

abbrev pub queue_under : Option (Option Value) → List QueueItem
queue_under none = []
queue_under (some none) = []
queue_under (some (some parsed)) = queue_in parsed

-- `loadQueue`
unfoldable pub load_queue : Storage → String → List QueueItem
unfolding key_for queue_in
load_queue storage room_id = queue_under (Dict.get (key_for room_id) storage.texts)

-- `saveQueue`
unfoldable pub save_queue : Storage → String → List QueueItem → Storage
unfolding key_for
save_queue storage room_id items =
    if storage.writable
    then record storage {
      texts = Dict.put (key_for room_id) (some (array item_value items)) storage.texts;
    }
    else storage
