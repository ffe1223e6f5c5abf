-- ===== src/Client/PlaylistsStore.antt =====
-- packages/room/src/lib/playlists-store.ts: a person's playlists in the browser's store, and what is
-- made of any text that stands there. A number in the store is whole and finite: `JSON.stringify`
-- writes no other.
pub mod Kept
use spotjam.Prelude.{
  ℤ, pos, ltb_ℤ, String, Bool, true, false, ◌==◌, if◌then◌else◌, Option, none, some, List, [], ◌∷◌,
  Map, ◌>>=◌,
}
use spotjam.Prelude.Dict
use spotjam.Protocol.Types.{PlaylistTrack}
use spotjam.Protocol.Value.{
  Value, Fields, bool, num, str, arr, obj, end, entry, field, string_of, non_empty_string, to_list,
}
use spotjam.Client.Ops.{array, track_value}
use spotjam.Client.QueueStore.{Storage}
use spotjam.Client.Playlists.{PlaylistRow, PlaylistSource, local, spotify, Playlist, bare_row}

abbrev pub storage_key : String
storage_key = "spotjam.playlists"

-- `typeof value === "number" && value > 0 ? value : 0`
unfoldable pub length_or_zero : Value → ℤ
length_or_zero (num n) = if ltb_ℤ (pos 0) n then n else pos 0
length_or_zero v = pos 0

-- `typeof value === "number" ? value : 0`
unfoldable pub number_or_zero : Value → ℤ
number_or_zero (num n) = n
number_or_zero v = pos 0

-- `value === true`
unfoldable pub is_true : Value → Bool
is_true (bool b) = b
is_true v = false

-- `isTrack` and `toTrack`
unfoldable pub stored_track : Value → Option PlaylistTrack
unfolding field string_of length_or_zero
stored_track v = do
  uri ← string_of (field "uri" v)
  track_id ← string_of (field "trackId" v)
  some (record {
    uri = uri;
    track_id = track_id;
    duration_ms = length_or_zero (field "durationMs" v);
  })

abbrev pub with_uid : Option String → PlaylistTrack → PlaylistRow
with_uid uid track = record { track = track; uid = uid }

-- `isRow`, and the row that it is
unfoldable pub stored_row : Value → Option PlaylistRow
unfolding field stored_track non_empty_string
stored_row v = do
  track ← stored_track (field "track" v)
  some (with_uid (non_empty_string (field "uid" v)) track)

unfoldable pub stored_bare_row : Value → Option PlaylistRow
unfolding stored_track
stored_bare_row v = do track ← stored_track v; some (bare_row track)

abbrev pub and_one {ℓ} : {A : Type ℓ} → Option A → List A → List A
and_one none rest = rest
and_one (some a) rest = a ∷ rest

-- `list.filter(is…).map(to…)`
unfoldable pub all_read {ℓ} : {A : Type ℓ} → (Value → Option A) → List Value → List A
all_read read [] = []
all_read read (v ∷ vs) = and_one (read v) (all_read read vs)

-- `storedRows`: `rows`, or else the bare `tracks` of an older store
unfoldable pub stored_rows : Value → Value → Option (List PlaylistRow)
unfolding all_read stored_row stored_bare_row to_list
stored_rows (arr rows) tracks = some (all_read stored_row (to_list rows))
stored_rows v (arr tracks) = some (all_read stored_bare_row (to_list tracks))
stored_rows v w = none

abbrev pub linked : Option String → Value → PlaylistSource
linked none v = local
linked (some playlist_id) v =
    spotify playlist_id (number_or_zero (field "syncedAt" v)) (is_true (field "canAdd" v))
      (is_true (field "canEditItems" v))

abbrev pub is_spotify : Option String → Bool
is_spotify none = false
is_spotify (some kind) = kind == "spotify"

-- `storedSource`
unfoldable pub stored_source : Value → PlaylistSource
unfolding field string_of non_empty_string
stored_source v =
    if is_spotify (string_of (field "kind" v))
    then linked (non_empty_string (field "playlistId" v)) v
    else local

-- `isStoredPlaylist` and `toPlaylist`
unfoldable pub stored_playlist : Value → Option Playlist
unfolding field string_of stored_rows stored_source is_true
stored_playlist v = do
  id ← string_of (field "id" v)
  name ← string_of (field "name" v)
  rows ← stored_rows (field "rows" v) (field "tracks" v)
  some (record {
    id = id;
    name = name;
    rows = rows;
    is_public = is_true (field "isPublic" v);
    source = stored_source (field "source" v);
  })

unfoldable pub playlists_in : Value → List Playlist
unfolding all_read stored_playlist to_list
playlists_in (arr vs) = all_read stored_playlist (to_list vs)
playlists_in v = []

abbrev pub playlists_under : Option (Option Value) → List Playlist
playlists_under none = []
playlists_under (some none) = []
playlists_under (some (some parsed)) = playlists_in parsed

-- `loadPlaylists`
unfoldable pub load_playlists : Storage → List Playlist
unfolding playlists_in
load_playlists storage = playlists_under (Dict.get storage_key storage.texts)

abbrev pub uid_field : Option String → Fields
uid_field none = end
uid_field (some uid) = entry "uid" (str uid) end

-- `JSON.stringify` of a row, a source and a playlist
unfoldable pub row_value : PlaylistRow → Value
unfolding track_value
row_value row = obj (entry "track" (track_value row.track) (uid_field row.uid))

unfoldable pub source_value : PlaylistSource → Value
source_value local = obj (entry "kind" (str "local") end)
source_value (spotify playlist_id synced_at can_add can_edit_items) = obj (
    entry "kind" (str "spotify") (
      entry "playlistId" (str playlist_id) (
        entry "syncedAt" (num synced_at)
          (entry "canAdd" (bool can_add) (entry "canEditItems" (bool can_edit_items) end)))))

unfoldable pub stored_value : Playlist → Value
unfolding row_value source_value
stored_value list = obj (
    entry "id" (str list.id) (
      entry "name" (str list.name) (
        entry "rows" (array row_value list.rows) (
          entry "isPublic" (bool list.is_public) (entry "source" (source_value list.source) end)))))

-- `savePlaylists`
unfoldable pub save_playlists : Storage → List Playlist → Storage
unfolding stored_value
save_playlists storage lists =
    if storage.writable
    then record storage {
      texts = Dict.put storage_key (some (array stored_value lists)) storage.texts;
    }
    else storage
