-- ===== src/Client/PlaylistsStore/Kept.antt =====
-- packages/room/src/lib/playlists-store.ts: what comes back out of the store.
use spotjam.Prelude.{
  pos, ◌≤ℤ◌, String, true, eq_iff, ◌≢◌, Option, none, some, List, [], ◌∷◌, arith, ◌≡◌, refl,
}
use spotjam.Prelude.Dict
use spotjam.Prelude.Dict.{get-put}
use spotjam.Protocol.Types.{PlaylistTrack}
use spotjam.Protocol.Value.{Value, field, find_field, string_of, non_empty_string, to_list}
use spotjam.Client.Ops.{element_values, array, track_value}
use spotjam.Client.Ops.Wire.{All}
use spotjam.Client.QueueStore.{Storage}
use spotjam.Client.Playlists.{PlaylistRow, PlaylistSource, local, spotify, Playlist}
use spotjam.Client.PlaylistsStore.{
  storage_key, uid_field, length_or_zero, number_or_zero, is_true, stored_track, stored_row,
  all_read, stored_rows, stored_source, stored_playlist, playlists_in, load_playlists, row_value,
  source_value, stored_value, save_playlists,
}

-- What the operations on playlists produce: no negative length, no empty uid, and a link that names
-- a playlist.
abbrev pub HasUid : Option String → Type 0
HasUid none = Unit {0}
HasUid (some uid) = uid ≢ ""

abbrev pub IsRow : PlaylistRow → Type 0
IsRow row = (pos 0 ≤ℤ row.track.duration_ms) × HasUid row.uid

abbrev pub IsSource : PlaylistSource → Type 0
IsSource local = Unit {0}
IsSource (spotify playlist_id synced_at can_add can_edit_items) = playlist_id ≢ ""

abbrev pub IsStorable : Playlist → Type 0
IsStorable list = All IsRow list.rows × IsSource list.source

stored_track-track_value :
    (t : PlaylistTrack) → pos 0 ≤ℤ t.duration_ms → stored_track (track_value t) ≡ some t
unfolding stored_track track_value field find_field string_of length_or_zero
stored_track-track_value t h = ground arith

uid_back :
    (uid : Option String) → HasUid uid → non_empty_string (find_field "uid" (uid_field uid)) ≡ uid
unfolding find_field non_empty_string
uid_back none h = refl
uid_back (some uid) h = ground (arith, eq_iff uid "")

stored_row-row_value : (row : PlaylistRow) → IsRow row → stored_row (row_value row) ≡ some row
unfolding stored_row row_value field find_field
stored_row-row_value row h = ground (arith, uid_back row.uid h.1)

stored_source-source_value : (s : PlaylistSource) → IsSource s → stored_source (source_value s) ≡ s
unfolding stored_source source_value field find_field string_of non_empty_string number_or_zero
    is_true
stored_source-source_value local h = refl
stored_source-source_value (spotify playlist_id synced_at can_add can_edit_items) h =
    ground (arith, eq_iff playlist_id "")

all_read-values :
    {A : Type 0} (value : A → Value) (read : Value → Option A) (P : A → Type 0) (xs : List A)
    → ((x : A) → P x → read (value x) ≡ some x)
    → All P xs
    → all_read read (to_list (element_values value xs)) ≡ xs
unfolding all_read to_list element_values
all_read-values value read P [] back h = refl
all_read-values value read P (x ∷ xs) back h =
    rw (back x h.0, all_read-values value read P xs back h.1)

stored_playlist-stored_value :
    (list : Playlist) → IsStorable list → stored_playlist (stored_value list) ≡ some list
unfolding stored_playlist stored_value field find_field string_of stored_rows is_true
stored_playlist-stored_value list h = rw (
  all_read-values row_value stored_row IsRow list.rows stored_row-row_value h.0,
  stored_source-source_value list.source h.1,
)

texts-save_playlists :
    (st : Storage) (lists : List Playlist)
    → st.writable ≡ true
    → (save_playlists st lists).texts
      ≡ Dict.put storage_key (some (array stored_value lists)) st.texts
unfolding save_playlists
texts-save_playlists st lists w = rw w

-- In a store that takes writes, playlists come back as they were saved, where no length is
-- negative, no row has an empty uid and each link names a playlist.
pub load_playlists-save_playlists :
    (st : Storage) (lists : List Playlist)
    → st.writable ≡ true
    → All IsStorable lists
    → load_playlists (save_playlists st lists) ≡ lists
unfolding load_playlists playlists_in
load_playlists-save_playlists st lists w h =
    rw (texts-save_playlists st lists w, get-put)
      (all_read-values stored_value stored_playlist IsStorable lists stored_playlist-stored_value h)
