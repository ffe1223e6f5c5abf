-- ===== src/Client/Playlists.antt =====
-- packages/room/src/lib/playlists.ts: a person's own playlists. A name that is blank after trimming
-- is one that the parameter `trim` leaves empty.
pub mod Rows
pub mod Edits
use spotjam.Prelude.{
  ℕ, suc, ℤ, ltb, eqb, String, Bool, true, false, not, ◌||◌, ◌==◌, if◌then◌else◌, Option, none,
  some, List, [], ◌∷◌, ◌++◌, map, keep_if, includes, length, take, drop, get_elem?,
}
use spotjam.Protocol.Types.{PlaylistTrack, SharedPlaylist}
use spotjam.Client.Shuffle.{Draws, shuffled}
use spotjam.Protocol.Tracks.{find_index, is_empty, fresh_tracks}

pub record PlaylistRow : Type 0 where
  pub track : PlaylistTrack
  pub uid : Option String

-- `PlaylistSource`
pub data PlaylistSource : Type 0 where
  local : PlaylistSource
  spotify : String → ℤ → Bool → Bool → PlaylistSource

pub record Playlist : Type 0 where
  pub id : String
  pub name : String
  pub rows : List PlaylistRow
  pub is_public : Bool
  pub source : PlaylistSource

-- `tracksOf`
unfoldable pub tracks_of : Playlist → List PlaylistTrack
tracks_of playlist = map (λ row. row.track) playlist.rows

abbrev pub bare_row : PlaylistTrack → PlaylistRow
bare_row track = record { track = track; uid = none }

-- `rowsOfTracks`
unfoldable pub rows_of_tracks : List PlaylistTrack → List PlaylistRow
rows_of_tracks tracks = map bare_row tracks

abbrev pub is_local : PlaylistSource → Bool
is_local local = true
is_local (spotify playlist_id synced_at can_add can_edit_items) = false

-- `isEditable`
unfoldable pub is_editable : Playlist → Bool
is_editable playlist = is_local playlist.source

abbrev pub mirrored : PlaylistSource → Option String
mirrored local = none
mirrored (spotify playlist_id synced_at can_add can_edit_items) = some playlist_id

-- `linkedPlaylistId`
unfoldable pub linked_playlist_id : Playlist → Option String
linked_playlist_id playlist = mirrored playlist.source

abbrev pub takes_tracks : PlaylistSource → Bool
takes_tracks local = true
takes_tracks (spotify playlist_id synced_at can_add can_edit_items) = can_add

-- `canAddTracks`
unfoldable pub can_add_tracks : Playlist → Bool
can_add_tracks playlist = takes_tracks playlist.source

abbrev pub takes_edits : PlaylistSource → Bool
takes_edits local = true
takes_edits (spotify playlist_id synced_at can_add can_edit_items) = can_edit_items

-- `canEditItems`
unfoldable pub can_edit_items_of : Playlist → Bool
can_edit_items_of playlist = takes_edits playlist.source

abbrev pub row_key : PlaylistRow → String
row_key row = row.track.track_id

-- `dedupedRows`
unfoldable pub deduped_rows : List PlaylistRow → List PlaylistRow
deduped_rows rows = fresh_tracks row_key [] rows

-- `mapList`
unfoldable pub map_list : List Playlist → String → (Playlist → Playlist) → List Playlist
map_list lists id update = map (λ list. if list.id == id then update list else list) lists

-- `deletePlaylist`
unfoldable pub delete_playlist : List Playlist → String → List Playlist
delete_playlist lists id = keep_if (λ list. not (list.id == id)) lists

-- `unlinkPlaylist`
unfoldable pub unlink_playlist : List Playlist → String → List Playlist
unfolding map_list
unlink_playlist lists id = map_list lists id (λ list.
    if is_local list.source
    then list
    else record list { source = local; rows = map (λ row. bare_row row.track) list.rows })

abbrev pub resynced : PlaylistSource → ℤ → Bool → Bool → PlaylistSource
resynced local synced_at can_add can_edit_items = local
resynced (spotify playlist_id old_at old_add old_edit) synced_at can_add can_edit_items =
    spotify playlist_id synced_at can_add can_edit_items

module _ (trim : String → String) where
  -- `trimmed || fallback`
  abbrev pub trimmed_or : String → String → String
  trimmed_or name fallback = if trim name == "" then fallback else trim name

  -- `createPlaylist`, with the id that is given or drawn
  unfoldable pub create_playlist : List Playlist → String → String → List Playlist
  create_playlist lists name id =
      lists
      ++ record {
        id = id;
        name = trimmed_or name "Untitled";
        rows = [];
        is_public = false;
        source = local;
      }
        ∷ []

  -- `createPlaylistWithTracks`
  unfoldable pub create_playlist_with_tracks :
      List Playlist → String → List PlaylistRow → String → PlaylistSource → List Playlist
  unfolding deduped_rows
  create_playlist_with_tracks lists name rows id source =
      lists
      ++ record {
        id = id;
        name = trimmed_or name "Untitled";
        rows = deduped_rows rows;
        is_public = false;
        source = source;
      }
        ∷ []

  -- `reconcileLinked`
  unfoldable pub reconcile_linked :
      List Playlist → String → String → List PlaylistRow → Bool → Bool → ℤ → List Playlist
  unfolding map_list deduped_rows
  reconcile_linked lists id name rows can_add can_edit_items synced_at = map_list lists id (λ list.
      if is_local list.source then list else record list {
        name = trimmed_or name list.name;
        rows = deduped_rows rows;
        source = resynced list.source synced_at can_add can_edit_items;
      })

  -- `renamePlaylist`
  unfoldable pub rename_playlist : List Playlist → String → String → List Playlist
  unfolding map_list
  rename_playlist lists id name =
      if trim name == ""
      then lists
      else map_list lists id (λ list. record list { name = trim name })

-- The splice index: where the row of `before` stands, or the end.
abbrev pub place_of : List PlaylistRow → Option String → ℕ
place_of rows none = length rows
place_of rows (some before) = elim (find_index (λ row. row_key row == before) rows) [
  | none ↦ length rows
  | some i ↦ i
]

abbrev pub splice : List PlaylistRow → ℕ → List PlaylistRow → List PlaylistRow
splice rows at block = take at rows ++ (block ++ drop at rows)

-- The rows of `insertTracksIntoPlaylist`
unfoldable pub insert_rows :
    List PlaylistRow → List PlaylistTrack → Option String → List PlaylistRow
insert_rows rows tracks before =
    let fresh = map bare_row (fresh_tracks (λ track. track.track_id) (map row_key rows) tracks) in
    if is_empty fresh then rows else splice rows (place_of rows before) fresh

-- `insertTracksIntoPlaylist`
unfoldable pub insert_tracks_into_playlist :
    List Playlist → String → List PlaylistTrack → Option String → List Playlist
unfolding map_list insert_rows
insert_tracks_into_playlist lists id tracks before =
    if is_empty tracks
    then lists
    else map_list lists id (λ list. record list { rows = insert_rows list.rows tracks before })

-- `rows.filter((_, at) => at !== from)`
unfoldable pub without_at : ℕ → List PlaylistRow → List PlaylistRow
without_at from rows = take from rows ++ drop (suc from) rows

abbrev pub reinserted : List PlaylistRow → ℕ → Option PlaylistRow → Option String → List PlaylistRow
reinserted rows from none before = rows
reinserted rows from (some row) before =
    let rest = take from rows ++ drop (suc from) rows in
    let at = place_of rest before in if eqb at from then rows else splice rest at (row ∷ [])

-- The rows of `moveRowInPlaylist`
unfoldable pub move_row : List PlaylistRow → String → Option String → List PlaylistRow
move_row rows track_id before = elim (find_index (λ row. row_key row == track_id) rows) [
  | none ↦ rows
  | some from ↦ reinserted rows from (get_elem? rows from) before
]

abbrev pub is_itself : String → Option String → Bool
is_itself track_id none = false
is_itself track_id (some before) = track_id == before

-- `moveRowInPlaylist`
unfoldable pub move_row_in_playlist :
    List Playlist → String → String → Option String → List Playlist
unfolding map_list move_row
move_row_in_playlist lists id track_id before =
    if is_itself track_id before
    then lists
    else map_list lists id (λ list. record list { rows = move_row list.rows track_id before })

-- `shufflePlaylist`, with its randomness as a parameter
abbrev pub shuffled_list : Draws → Playlist → Playlist
shuffled_list random list =
    if ltb (length list.rows) 2 then list else record list { rows = shuffled list.rows random }

unfoldable pub shuffle_playlist : List Playlist → String → Draws → List Playlist
unfolding map_list shuffled
shuffle_playlist lists id random = map_list lists id (shuffled_list random)

-- `removeTrackFromPlaylist`; an index is a natural number or out of range
unfoldable pub remove_track_from_playlist : List Playlist → String → Option ℕ → List Playlist
unfolding map_list without_at
remove_track_from_playlist lists id none = lists
remove_track_from_playlist lists id (some index) = map_list lists id (λ list.
    if ltb index (length list.rows)
    then record list { rows = without_at index list.rows }
    else list)

-- `setPlaylistPublic`
unfoldable pub set_playlist_public : List Playlist → String → Bool → List Playlist
unfolding map_list
set_playlist_public lists id is_public =
    map_list lists id (λ list. record list { is_public = is_public })

abbrev pub shared_one : Playlist → SharedPlaylist
shared_one list = record {
  id = list.id;
  name = list.name;
  tracks = map (λ row. row.track) list.rows;
}

-- `toSharedPlaylists`
unfoldable pub to_shared_playlists : List Playlist → List SharedPlaylist
to_shared_playlists lists = map shared_one (keep_if (λ list. list.is_public) lists)
