-- ===== src/Client/Selection.antt =====
-- packages/room/src/lib/selection.ts: the rows that a click selects. A set is a list in the order of
-- insertion, each string once.
use spotjam.Prelude.{
  ℕ, suc, ◌-◌, ltb, String, Bool, true, false, not, ◌&&◌, ◌==◌, eq_iff, if◌then◌else◌, Bool-cases,
  Option, none, some, List, [], ◌∷◌, ◌++◌, map, keep_if, includes, includes-append,
  includes-keep_ne, length, take, drop, arith, ◌≡◌, refl, inl, inr,
}
use spotjam.Protocol.Types.{QueueItem, PlaylistTrack}
use spotjam.Protocol.Tracks.{find_index, fresh_tracks}

pub record Selection : Type 0 where
  pub ids : List String
  pub anchor_id : Option String

abbrev pub empty_selection : Selection
empty_selection = record { ids = []; anchor_id = none }

pub record ClickModifiers : Type 0 where
  pub shift : Bool
  pub toggle : Bool

-- `orderedIds.indexOf(id)`, none for -1
abbrev pub index_of : String → List String → Option ℕ
index_of id ordered = find_index (λ x. x == id) ordered

abbrev pub before : Option ℕ → Option ℕ → Bool
before none none = false
before none (some j) = true
before (some i) none = false
before (some i) (some j) = ltb i j

-- The ends of `slice(start, end + 1)`, where -1 counts from the end of the list.
abbrev pub slice_start : List String → Option ℕ → ℕ
slice_start ordered none = length ordered - 1
slice_start ordered (some i) = i

abbrev pub slice_end : Option ℕ → ℕ
slice_end none = 0
slice_end (some i) = suc i

abbrev pub slice_of : List String → Option ℕ → Option ℕ → List String
slice_of ordered start last =
    take (slice_end last - slice_start ordered start) (drop (slice_start ordered start) ordered)

-- `new Set(list)`
abbrev pub set_of : List String → List String
set_of xs = fresh_tracks (λ x. x) [] xs

abbrev pub range : List String → Option ℕ → Option ℕ → List String
range ordered anchor index =
    if before anchor index
    then set_of (slice_of ordered anchor index)
    else set_of (slice_of ordered index anchor)

-- `ids.has(id) ? ids.delete(id) : ids.add(id)`
abbrev pub toggled : String → List String → List String
toggled id ids = if includes id ids then keep_if (λ x. not (x == id)) ids else ids ++ id ∷ []

abbrev pub is_sole : String → List String → Bool
is_sole id [] = false
is_sole id (x ∷ []) = x == id
is_sole id (x ∷ y ∷ rest) = false

-- A click with no anchor to extend from.
abbrev pub click_here : Selection → String → Bool → Selection
click_here sel clicked toggle =
    if toggle then record { ids = toggled clicked sel.ids; anchor_id = some clicked } else record {
      ids = if is_sole clicked sel.ids then [] else clicked ∷ [];
      anchor_id = some clicked;
    }

abbrev pub shift_click : Selection → List String → String → Bool → Option String → Selection
shift_click sel ordered clicked toggle none = click_here sel clicked toggle
shift_click sel ordered clicked toggle (some anchor) = record {
  ids = range ordered (index_of anchor ordered) (index_of clicked ordered);
  anchor_id = some anchor;
}

-- `applySelectionClick`
unfoldable pub apply_selection_click : Selection → List String → String → ClickModifiers → Selection
apply_selection_click sel ordered clicked mods =
    if mods.shift
    then shift_click sel ordered clicked mods.toggle sel.anchor_id
    else click_here sel clicked mods.toggle

-- `targetsForContextClick`
unfoldable pub targets_for_context_click : Selection → String → List String × Selection
targets_for_context_click sel clicked =
    if includes clicked sel.ids
    then (sel.ids, sel)
    else (clicked ∷ [], record { ids = clicked ∷ []; anchor_id = some clicked })

abbrev pub live_anchor : List String → Option String → Option String
live_anchor live none = none
live_anchor live (some anchor) = if includes anchor live then some anchor else none

-- `pruneSelection`
unfoldable pub prune_selection : Selection → List String → Selection
prune_selection sel live = record {
  ids = keep_if (λ id. includes id live) sel.ids;
  anchor_id = live_anchor live sel.anchor_id;
}

-- `toPlaylistTracks`
unfoldable pub to_playlist_tracks : List QueueItem → List PlaylistTrack
to_playlist_tracks items =
    map
      (λ item. record { uri = item.uri; track_id = item.track_id; duration_ms = item.duration_ms })
      items

-- `tracksOf`
unfoldable pub tracks_of_ids : List QueueItem → List String → List PlaylistTrack
unfolding to_playlist_tracks
tracks_of_ids items ids = to_playlist_tracks (keep_if (λ item. includes item.id ids) items)

-- A toggled row changes sides, and no other row does.
pub includes-toggled :
    (id t : String) (ids : List String)
    → includes t (toggled id ids) ≡ (if id == t then not (includes id ids) else includes t ids)
includes-toggled id t ids = elim (Bool-cases (includes id ids)) [
  | inl e ↦ rw (e) (ground (arith, includes-keep_ne id t ids, e))
  | inr e ↦ rw (e) (ground (arith, includes-append t ids (id ∷ []), eq_iff id t, e))
]

includes-keep_live :
    (t : String) (ids live : List String)
    → includes t (keep_if (λ id. includes id live) ids) ≡ includes t ids && includes t live
includes-keep_live t [] live = refl
includes-keep_live t (i ∷ ids) live = ground (arith, includes-keep_live t ids live, eq_iff i t)

-- Pruning keeps exactly the selected rows that are still listed, and the anchor if it is.
pub prune_selection-live :
    (sel : Selection) (live : List String) (t : String)
    → (includes t (prune_selection sel live).ids ≡ includes t sel.ids && includes t live)
      × ((prune_selection sel live).anchor_id ≡ some t → includes t live ≡ true)
unfolding prune_selection
prune_selection-live sel live t = (includes-keep_live t sel.ids live, anchored sel.anchor_id)
  where
    anchored : (o : Option String) → live_anchor live o ≡ some t → includes t live ≡ true
    anchored none e = cc
    anchored (some anchor) e = elim (Bool-cases (includes anchor live)) [
      | inl h ↦ ground arith
      | inr h ↦ ground arith
    ]
