-- ===== src/Client/Playlists/Rows.antt =====
-- packages/room/src/lib/playlists.ts: the tracks of a playlist, each of them once.
use mathlib.Core.List.{Perm, perm_append_comm}
use mathlib.Core.List.Perm
use spotjam.Prelude.{
  ℕ, zero, suc, eqb, String, ◌==◌, Bool-cases, Option, none, some, List, [], ◌∷◌, ◌++◌, map,
  Distinct, Distinct-append, length, take, drop, get_elem?, get_elem?_of_lt, take-append-drop,
  Distinct-perm, arith, subst, ◌≡◌, refl, ap, inl, inr, ◌<◌,
}
use mathlib.Core.List.{map-append}
use spotjam.Protocol.Types.{PlaylistTrack}
use spotjam.Protocol.Tracks.{find_index, is_empty, fresh_tracks}
use spotjam.Protocol.Tracks.Append.{fresh_tracks-Distinct, includes-fresh_tracks}
use spotjam.Protocol.Tracks.Move.{insert-perm}
use spotjam.Client.Shuffle.{Draws, shuffled, shuffled-perm}
use spotjam.Client.Playlists.{
  PlaylistRow, bare_row, row_key, splice, place_of, insert_rows, move_row, reinserted, without_at,
  deduped_rows,
}

-- Each track once.
abbrev pub HoldsOnce : List PlaylistRow → Type 0
HoldsOnce rows = Distinct (map row_key rows)

splice-perm :
    (rows : List PlaylistRow) (at : ℕ) (block : List PlaylistRow)
    → Perm (splice rows at block) (block ++ rows)
splice-perm rows at block =
    Perm.trans (rw (take-append-drop at rows) at (insert-perm (take at rows) (drop at rows) block))
      (perm_append_comm rows block)

removed-perm :
    (rows : List PlaylistRow) (from : ℕ) (row : PlaylistRow)
    → get_elem? rows from ≡ some row
    → Perm rows (row ∷ (take from rows ++ drop (suc from) rows))
removed-perm [] from row e = cc
removed-perm (r ∷ rows) zero row e =
    let same : r ≡ row = cc e in subst (λ x. Perm (r ∷ rows) (x ∷ rows)) same (Perm.refl (r ∷ rows))
removed-perm (r ∷ rows) (suc from) row e =
    Perm.trans (Perm.cons r (removed-perm rows from row e)) (Perm.swap _ _ _)

-- A move loses no row and adds none.
pub move_row-perm :
    (rows : List PlaylistRow) (track_id : String) (before : Option String)
    → Perm (move_row rows track_id before) rows
unfolding move_row
move_row-perm rows track_id before = moved (find_index (λ row. row_key row == track_id) rows)
  where
    lifted :
        (from : ℕ) (o : Option PlaylistRow)
        → get_elem? rows from ≡ o
        → Perm (reinserted rows from o before) rows
    lifted from none e = Perm.refl rows
    lifted from (some row) e =
        let rest = take from rows ++ drop (suc from) rows in
        let at = place_of rest before in
        elim (Bool-cases (eqb at from)) [
          | inl same ↦ rw same (Perm.refl rows)
          | inr other ↦ rw other (
              Perm.trans (splice-perm rest at (row ∷ []))
                (Perm.symm (removed-perm rows from row e)))
        ]

    moved :
        (o : Option ℕ)
        → Perm
            (elim o [ none ↦ rows | some from ↦ reinserted rows from (get_elem? rows from) before ])
            rows
    moved none = Perm.refl rows
    moved (some from) = lifted from (get_elem? rows from) refl

HoldsOnce-perm : (xs ys : List PlaylistRow) → Perm xs ys → HoldsOnce xs → HoldsOnce ys
HoldsOnce-perm xs ys p h = Distinct-perm _ _ (Perm.map row_key p) h

pub move_row-HoldsOnce :
    (rows : List PlaylistRow) (track_id : String) (before : Option String)
    → HoldsOnce rows
    → HoldsOnce (move_row rows track_id before)
move_row-HoldsOnce rows track_id before h =
    HoldsOnce-perm rows _ (Perm.symm (move_row-perm rows track_id before)) h

pub shuffled-HoldsOnce :
    (rows : List PlaylistRow) (random : Draws) → HoldsOnce rows → HoldsOnce (shuffled rows random)
shuffled-HoldsOnce rows random h = HoldsOnce-perm rows _ (Perm.symm (shuffled-perm rows random)) h

pub deduped_rows-HoldsOnce : (rows : List PlaylistRow) → HoldsOnce (deduped_rows rows)
unfolding deduped_rows
deduped_rows-HoldsOnce rows = fresh_tracks-Distinct row_key [] rows

pub without_at-HoldsOnce :
    (rows : List PlaylistRow) (from : ℕ)
    → from < length rows
    → HoldsOnce rows
    → HoldsOnce (without_at from rows)
unfolding without_at
without_at-HoldsOnce rows from inside h =
    let (row, e) = get_elem?_of_lt rows from inside in
    (HoldsOnce-perm rows _ (removed-perm rows from row e) h).1

map_bare :
    (tracks : List PlaylistTrack) → map row_key (map bare_row tracks) ≡ map (λ t. t.track_id) tracks
map_bare [] = refl
map_bare (t ∷ ts) = ap (λ r. t.track_id ∷ r) (map_bare ts)

pub bared-HoldsOnce :
    (rows : List PlaylistRow) → HoldsOnce rows → HoldsOnce (map (λ row. bare_row row.track) rows)
bared-HoldsOnce rows h = rw (same_keys rows) h
  where
    same_keys :
        (rows : List PlaylistRow)
        → map row_key (map (λ row. bare_row row.track) rows) ≡ map row_key rows
    same_keys [] = refl
    same_keys (r ∷ rs) = ap (λ k. r.track.track_id ∷ k) (same_keys rs)

pub insert_rows-HoldsOnce :
    (rows : List PlaylistRow) (tracks : List PlaylistTrack) (before : Option String)
    → HoldsOnce rows
    → HoldsOnce (insert_rows rows tracks before)
unfolding insert_rows
insert_rows-HoldsOnce rows tracks before h =
    let fresh = fresh_tracks (λ t. t.track_id) (map row_key rows) tracks in
    let block = map bare_row fresh in
    let joined : HoldsOnce (block ++ rows) =
      rw (map-append, map_bare)
        (Distinct-append _ _ (fresh_tracks-Distinct (λ t. t.track_id) (map row_key rows) tracks) h
          (λ t there.
            ground (arith, includes-fresh_tracks (λ x. x.track_id) t (map row_key rows) tracks))) in
    elim (Bool-cases (is_empty block)) [
      | inl e ↦ rw e h
      | inr e ↦ rw e (
          HoldsOnce-perm (block ++ rows) _
            (Perm.symm (splice-perm rows (place_of rows before) block)) joined)
    ]
