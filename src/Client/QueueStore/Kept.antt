-- ===== src/Client/QueueStore/Kept.antt =====
-- packages/room/src/lib/queue-store.ts: what comes back out of the store, and that the server takes it.
use text.Mathlib.TextLemmas.{append_cancel_left}
use spotjam.Prelude.{
  ℤ, pos, ◌<ℤ◌, String, true, ◌==◌, eq_iff, ◌≢◌, if◌then◌else◌, Bool-cases, Option-cases, Option,
  none, some, List, [], ◌∷◌, arith, ◌≡◌, refl, ap, ◌>>=◌, inl, inr,
}
use spotjam.Prelude.Dict
use spotjam.Prelude.Dict.{get-put}
use spotjam.Protocol.Types.{QueueItem}
use spotjam.Protocol.Value.{Value, num, str, arr, field, find_field, non_empty_string, to_list}
use spotjam.Client.Ops.{array, item_value, element_values}
use spotjam.Client.Ops.Wire.{All, IsItem}
use spotjam.Client.QueueStore.{
  Storage, key_for, whole_length, stored_item, stored_items, queue_in, queue_under, load_queue,
  save_queue,
}

stored_item-item_value : (i : QueueItem) → IsItem i → stored_item (item_value i) ≡ some i
unfolding stored_item item_value field find_field non_empty_string whole_length
stored_item-item_value i h = ground (arith, eq_iff i.id "", eq_iff i.uri "", eq_iff i.track_id "")

stored_items-values :
    (items : List QueueItem)
    → All IsItem items
    → stored_items (to_list (element_values item_value items)) ≡ items
unfolding stored_items to_list element_values
stored_items-values [] h = refl
stored_items-values (i ∷ is) h = rw (stored_item-item_value i h.0, stored_items-values is h.1)

key_for_eq : (a b : String) → key_for a ≡ key_for b → a ≡ b
unfolding key_for
key_for_eq a b e = append_cancel_left "spotjam.queue." a b e

key_for_test : (a b : String) → key_for a == key_for b ≡ a == b
key_for_test a b =
    ground (arith, eq_iff (key_for a) (key_for b), eq_iff a b, key_for_eq a b, ap key_for)

non_empty : (v : Value) (s : String) → non_empty_string v ≡ some s → s ≢ ""
unfolding non_empty_string
non_empty (str t) s h = ground (arith, eq_iff t "")
non_empty v s h = cc

positive : (v : Value) (n : ℤ) → whole_length v ≡ some n → pos 0 <ℤ n
unfolding whole_length
positive (num m) n h = ground arith
positive v n h = cc

stored_item-IsItem : (v : Value) (i : QueueItem) → stored_item v ≡ some i → IsItem i
unfolding stored_item
stored_item-IsItem v i h =
    let id = non_empty_string (field "id" v) in
    let uri = non_empty_string (field "uri" v) in
    let track = non_empty_string (field "trackId" v) in
    let long = whole_length (field "durationMs" v) in
    read id uri track long (non_empty (field "id" v)) (non_empty (field "uri" v))
      (non_empty (field "trackId" v)) (positive (field "durationMs" v)) h
  where
    read :
        (a b c : Option String) (d : Option ℤ)
        → ((s : String) → a ≡ some s → s ≢ "")
        → ((s : String) → b ≡ some s → s ≢ "")
        → ((s : String) → c ≡ some s → s ≢ "")
        → ((n : ℤ) → d ≡ some n → pos 0 <ℤ n)
        → (do
          id ← a
          uri ← b
          track_id ← c
          duration_ms ← d
          some (record { id = id; uri = uri; track_id = track_id; duration_ms = duration_ms }))
          ≡ some i
        → IsItem i
    read none b c d p q r t e = cc
    read (some x) none c d p q r t e = cc
    read (some x) (some y) none d p q r t e = cc
    read (some x) (some y) (some z) none p q r t e = cc
    read (some x) (some y) (some z) (some w) p q r t e =
        ground (arith, p x refl, q y refl, r z refl, t w refl)

stored_items-All : (vs : List Value) → All IsItem (stored_items vs)
unfolding stored_items
stored_items-All [] = tt
stored_items-All (v ∷ vs) = elim (Option-cases (stored_item v)) [
  | inl e ↦ rw (e, All) (stored_items-All vs)
  | inr (i, e) ↦ rw (e, All) (stored_item-IsItem v i e, stored_items-All vs)
]

queue_in-All : (v : Value) → All IsItem (queue_in v)
unfolding queue_in
queue_in-All (arr vs) = stored_items-All (to_list vs)
queue_in-All v = tt

-- Whatever the store holds, what is loaded from it are items that the server takes.
pub load_queue-All : (st : Storage) (room_id : String) → All IsItem (load_queue st room_id)
unfolding load_queue
load_queue-All st room_id = found (Dict.get (key_for room_id) st.texts)
  where
    found : (o : Option (Option Value)) → All IsItem (queue_under o)
    found none = tt
    found (some none) = tt
    found (some (some v)) = queue_in-All v

texts-save_queue :
    (st : Storage) (room_id : String) (items : List QueueItem)
    → st.writable ≡ true
    → (save_queue st room_id items).texts
      ≡ Dict.put (key_for room_id) (some (array item_value items)) st.texts
unfolding save_queue
texts-save_queue st room_id items w = rw w

-- In a store that takes writes, a queue whose items each have an id, an uri, a track id and a
-- length above zero comes back as it was saved, and the queues of all other rooms are as before.
pub load_queue-save_queue :
    (st : Storage) (room_id other : String) (items : List QueueItem)
    → st.writable ≡ true
    → All IsItem items
    → load_queue (save_queue st room_id items) other
      ≡ (if room_id == other then items else load_queue st other)
unfolding load_queue queue_in
load_queue-save_queue st room_id other items w h = elim (Bool-cases (room_id == other)) [
  | inl e ↦
      rw (texts-save_queue st room_id items w, get-put, key_for_test room_id other, e)
        (stored_items-values items h)
  | inr e ↦ rw (texts-save_queue st room_id items w, get-put, key_for_test room_id other, e)
]
