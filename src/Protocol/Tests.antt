-- ===== src/Protocol/Tests.antt =====
-- A queue of five tracks and a playing pointer, and each theorem about the shared functions at them.
use spotjam.Prelude.{
  Distinct, ◌++◌, ◌&&◌, not, String, pos, ◌+ℤ◌, false, some, List, [], ◌∷◌, map, includes, ◌≡◌,
  refl,
}
use mathlib.Core.List.{Perm, Sublistᴰ}
use spotjam.Protocol.Types.{PlaybackPointer}
use spotjam.Protocol.Pointer.{ends_at}
use spotjam.Protocol.Tracks.{append_unique_tracks, move_many, moved_entries, left_behind}
use spotjam.Protocol.Tracks.Append.{append_unique_tracks_fresh}
use spotjam.Protocol.Tracks.Move.{Landing, move_many-perm, move_many-before}

abbrev named : String → String
named s = s

abbrev tracks : List String
tracks = "a" ∷ "b" ∷ "c" ∷ "d" ∷ "e" ∷ []

abbrev block : List String
block = "d" ∷ "b" ∷ []

abbrev at_ten : PlaybackPointer
at_ten = record {
  item_id = some "a";
  owner_pubkey = some "k";
  uri = some "u";
  started_at_epoch_ms = pos 10;
  is_paused = false;
  paused_at_offset_ms = pos 0;
  duration_ms = pos 100;
}

at_ten-ends : ends_at at_ten ≡ some (pos 110)
unfolding ends_at ◌+ℤ◌
at_ten-ends = refl

move_many-perm_example : Perm (move_many named tracks block (some "c")) tracks
move_many-perm_example = move_many-perm named tracks block (some "c")

move_many-before_example :
    (at : Landing named (left_behind named tracks block) "c") × (map named
        (move_many named tracks block (some "c"))
      ≡ map named (at.pre ++ (moved_entries named tracks block ++ at.target ∷ at.post)))
move_many-before_example =
    move_many-before named tracks block (some "c") "c" refl refl refl refl refl

append_unique_tracks_fresh_example :
    (fresh : List String) × (append_unique_tracks named tracks ("e" ∷ "f" ∷ "f" ∷ [])
      ≡ tracks ++ fresh)
    × Sublistᴰ fresh ("e" ∷ "f" ∷ "f" ∷ [])
    × Distinct (map named fresh)
    × ((t : String)
        → includes t (map named fresh)
          ≡ includes t (map named ("e" ∷ "f" ∷ "f" ∷ [])) && not (includes t (map named tracks)))
append_unique_tracks_fresh_example = append_unique_tracks_fresh named tracks ("e" ∷ "f" ∷ "f" ∷ [])
