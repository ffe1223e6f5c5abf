-- ===== src/Client/Playlists/Edits.antt =====
-- packages/room/src/lib/playlists.ts: a collection of playlists under any edits.
use spotjam.Prelude.{
  ℕ, ℤ, ltb, String, Bool, true, false, not, ◌==◌, if◌then◌else◌, Bool-cases, Option, none, some,
  List, [], ◌∷◌, ◌++◌, keep_if, length, arith, ◌≡◌, refl, ap, inl, inr,
}
use spotjam.Protocol.Types.{PlaylistTrack}
use spotjam.Protocol.Tracks.{is_empty}
use spotjam.Client.Ops.Wire.{All}
use spotjam.Client.Playlists.{
  PlaylistRow, PlaylistSource, Playlist, is_local, map_list, create_playlist,
  create_playlist_with_tracks, reconcile_linked, unlink_playlist, delete_playlist, rename_playlist,
  insert_tracks_into_playlist, move_row_in_playlist, remove_track_from_playlist,
  set_playlist_public, to_shared_playlists, shared_one, is_itself, shuffle_playlist,
}
use spotjam.Client.Playlists.Rows.{
  HoldsOnce, move_row-HoldsOnce, deduped_rows-HoldsOnce, without_at-HoldsOnce, bared-HoldsOnce,
  insert_rows-HoldsOnce, shuffled-HoldsOnce,
}
use spotjam.Client.Shuffle.{Draws}

-- What a person, or a sync with Spotify, does to the collection.
pub data Edit : Type 0 where
  create : String → String → Edit
  create_with : String → List PlaylistRow → String → PlaylistSource → Edit
  reconcile : String → String → List PlaylistRow → Bool → Bool → ℤ → Edit
  unlink delete : String → Edit
  rename : String → String → Edit
  insert : String → List PlaylistTrack → Option String → Edit
  move : String → String → Option String → Edit
  shuffle : String → Draws → Edit
  remove : String → Option ℕ → Edit
  set_public : String → Bool → Edit

-- Every playlist of the collection holds each track once.
abbrev pub AllOnce : List Playlist → Type 0
AllOnce lists = All (λ list. HoldsOnce list.rows) lists

map_list-AllOnce :
    (lists : List Playlist) (id : String) (f : Playlist → Playlist)
    → ((list : Playlist) → HoldsOnce list.rows → HoldsOnce (f list).rows)
    → AllOnce lists
    → AllOnce (map_list lists id f)
unfolding map_list
map_list-AllOnce [] id f keeps h = tt
map_list-AllOnce (list ∷ rest) id f keeps h =
    (chosen (list.id == id), map_list-AllOnce rest id f keeps h.1)
  where
    chosen : (b : Bool) → HoldsOnce (if b then f list else list).rows
    chosen true = keeps list h.0
    chosen false = h.0

append_one-AllOnce :
    (lists : List Playlist) (last : Playlist)
    → AllOnce lists
    → HoldsOnce last.rows
    → AllOnce (lists ++ last ∷ [])
append_one-AllOnce [] last h k = (k, tt)
append_one-AllOnce (list ∷ rest) last h k = (h.0, append_one-AllOnce rest last h.1 k)

delete-AllOnce :
    (lists : List Playlist) (id : String) → AllOnce lists → AllOnce (delete_playlist lists id)
unfolding delete_playlist
delete-AllOnce [] id h = tt
delete-AllOnce (list ∷ rest) id h = elim (Bool-cases (list.id == id)) [
  | inl e ↦ rw (e, All) (delete-AllOnce rest id h.1)
  | inr e ↦ rw (e, All) (h.0, delete-AllOnce rest id h.1)
]

if_AllOnce :
    (b : Bool) (xs ys : List Playlist) → AllOnce xs → AllOnce ys → AllOnce (if b then xs else ys)
if_AllOnce true xs ys p q = p
if_AllOnce false xs ys p q = q

if_HoldsOnce :
    (b : Bool) (x y : Playlist)
    → (b ≡ true → HoldsOnce x.rows)
    → HoldsOnce y.rows
    → HoldsOnce (if b then x else y).rows
if_HoldsOnce true x y p q = p refl
if_HoldsOnce false x y p q = q

module _ (trim : String → String) where
  -- One edit, by the operation of that name.
  unfoldable pub edit : List Playlist → Edit → List Playlist
  edit lists (create name id) = create_playlist trim lists name id
  edit lists (create_with name rows id source) =
      create_playlist_with_tracks trim lists name rows id source
  edit lists (reconcile id name rows can_add can_edit synced_at) =
      reconcile_linked trim lists id name rows can_add can_edit synced_at
  edit lists (unlink id) = unlink_playlist lists id
  edit lists (delete id) = delete_playlist lists id
  edit lists (rename id name) = rename_playlist trim lists id name
  edit lists (insert id tracks before) = insert_tracks_into_playlist lists id tracks before
  edit lists (move id track_id before) = move_row_in_playlist lists id track_id before
  edit lists (shuffle id random) = shuffle_playlist lists id random
  edit lists (remove id index) = remove_track_from_playlist lists id index
  edit lists (set_public id is_public) = set_playlist_public lists id is_public

  pub edit-AllOnce : (lists : List Playlist) (e : Edit) → AllOnce lists → AllOnce (edit lists e)
  unfolding edit shuffle_playlist create_playlist create_playlist_with_tracks reconcile_linked
      unlink_playlist rename_playlist insert_tracks_into_playlist move_row_in_playlist
      remove_track_from_playlist set_playlist_public
  edit-AllOnce lists (create name id) h = append_one-AllOnce lists _ h tt
  edit-AllOnce lists (create_with name rows id source) h =
      append_one-AllOnce lists _ h (deduped_rows-HoldsOnce rows)
  edit-AllOnce lists (reconcile id name rows can_add can_edit synced_at) h =
      map_list-AllOnce lists id _
        (λ list k.
          if_HoldsOnce (is_local list.source) list _ (λ _. k) (deduped_rows-HoldsOnce rows))
        h
  edit-AllOnce lists (unlink id) h =
      map_list-AllOnce lists id _
        (λ list k.
          if_HoldsOnce (is_local list.source) list _ (λ _. k) (bared-HoldsOnce list.rows k))
        h
  edit-AllOnce lists (delete id) h = delete-AllOnce lists id h
  edit-AllOnce lists (rename id name) h =
      if_AllOnce (trim name == "") lists _ h (map_list-AllOnce lists id _ (λ list k. k) h)
  edit-AllOnce lists (insert id tracks before) h =
      if_AllOnce (is_empty tracks) lists _ h
        (map_list-AllOnce lists id _ (λ list k. insert_rows-HoldsOnce list.rows tracks before k) h)
  edit-AllOnce lists (move id track_id before) h =
      if_AllOnce (is_itself track_id before) lists _ h
        (map_list-AllOnce lists id _ (λ list k. move_row-HoldsOnce list.rows track_id before k) h)
  edit-AllOnce lists (shuffle id random) h =
      map_list-AllOnce lists id _
        (λ list k.
          if_HoldsOnce (ltb (length list.rows) 2) list _ (λ _. k)
            (shuffled-HoldsOnce list.rows random k))
        h
  edit-AllOnce lists (remove id none) h = h
  edit-AllOnce lists (remove id (some index)) h =
      map_list-AllOnce lists id _
        (λ list k.
          if_HoldsOnce (ltb index (length list.rows)) _ list
            (λ inside. without_at-HoldsOnce list.rows index (ground arith) k) k)
        h
  edit-AllOnce lists (set_public id is_public) h = map_list-AllOnce lists id _ (λ list k. k) h

  unfoldable pub edits : List Playlist → List Edit → List Playlist
  unfolding edit
  edits lists [] = lists
  edits lists (e ∷ es) = edits (edit lists e) es

  -- Whatever a person or a sync does to a collection in which every playlist holds each track
  -- once, every playlist still does, however often the tracks that come in repeat, and whatever a
  -- shuffle draws.
  pub edits-AllOnce :
      (lists : List Playlist) (es : List Edit) → AllOnce lists → AllOnce (edits lists es)
  unfolding edits
  edits-AllOnce lists [] h = h
  edits-AllOnce lists (e ∷ es) h = edits-AllOnce (edit lists e) es (edit-AllOnce lists e h)

-- After a playlist is taken back, the room is told of what it was told before, in the same order,
-- less the playlists of that id.
pub to_shared_playlists-set_playlist_public :
    (lists : List Playlist) (id : String)
    → to_shared_playlists (set_playlist_public lists id false)
      ≡ keep_if (λ shared. not (shared.id == id)) (to_shared_playlists lists)
unfolding to_shared_playlists set_playlist_public map_list
to_shared_playlists-set_playlist_public [] id = refl
to_shared_playlists-set_playlist_public (list ∷ rest) id =
    let ih = to_shared_playlists-set_playlist_public rest id in
    elim (Bool-cases (list.id == id)) [
      | inl e ↦ elim (Bool-cases list.is_public) [
        | inl p ↦ rw (e, p) (rw (e) ih)
        | inr p ↦ rw (e, p) ih
      ]
      | inr e ↦ elim (Bool-cases list.is_public) [
        | inl p ↦ rw (e, p) (rw (e) (ap (λ r. shared_one list ∷ r) ih))
        | inr p ↦ rw (e, p) ih
      ]
    ]
