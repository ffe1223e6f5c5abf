-- ===== src/Protocol/Tracks/Append.antt =====
-- packages/protocol/src/tracks.ts: what `appendUniqueTracks` adds, and what it leaves alone.
use spotjam.Prelude.{
  Bool, String, true, false, ap, ◌∙◌, not, ◌&&◌, ◌||◌, eq_iff, if◌then◌else◌, List, [], ◌∷◌, ◌++◌,
  map, includes, includes-append, Distinct, Distinct-append, arith, ◌≡◌, refl, append-nil,
}
use mathlib.Core.List.{map-append, Sublistᴰ}
use spotjam.Protocol.Tracks.{fresh_tracks, append_unique_tracks, is_empty}

abbrev NoneIn : List String → List String → Type 0
NoneIn seen [] = Unit {0}
NoneIn seen (t ∷ ts) = (includes t seen ≡ false) × NoneIn seen ts

NoneIn-cons :
    (t : String) (seen ts : List String)
    → includes t ts ≡ false
    → NoneIn seen ts
    → NoneIn (t ∷ seen) ts
NoneIn-cons t seen [] h n = tt
NoneIn-cons t seen (u ∷ ts) h n = ground (arith, NoneIn-cons t seen ts, eq_iff u t, eq_iff t u)

NoneIn-nil : (ts : List String) → NoneIn [] ts
NoneIn-nil [] = tt
NoneIn-nil (t ∷ ts) = (refl, NoneIn-nil ts)

module _ {ℓ} {T : Type ℓ} (track_id : T → String) where
  pub includes-fresh_tracks :
      (t : String) (seen : List String) (incoming : List T)
      → includes t (map track_id (fresh_tracks track_id seen incoming))
        ≡ includes t (map track_id incoming) && not (includes t seen)
  unfolding fresh_tracks
  includes-fresh_tracks t seen [] = refl
  includes-fresh_tracks t seen (x ∷ xs) = ground (
    arith,
    includes-fresh_tracks t seen xs,
    includes-fresh_tracks t (track_id x ∷ seen) xs,
    eq_iff (track_id x) t,
  )

  pub fresh_tracks-Distinct :
      (seen : List String) (incoming : List T)
      → Distinct (map track_id (fresh_tracks track_id seen incoming))
  unfolding fresh_tracks
  fresh_tracks-Distinct seen [] = tt
  fresh_tracks-Distinct seen (x ∷ xs) = ground (
    arith,
    fresh_tracks-Distinct seen xs,
    fresh_tracks-Distinct (track_id x ∷ seen) xs,
    includes-fresh_tracks (track_id x) (track_id x ∷ seen) xs,
    eq_iff (track_id x) (track_id x),
  )

  -- The fresh tracks stand in the order in which they come in.
  fresh_tracks-Sublist :
      (seen : List String) (incoming : List T)
      → Sublistᴰ (fresh_tracks track_id seen incoming) incoming
  unfolding fresh_tracks
  fresh_tracks-Sublist seen [] = Sublistᴰ.slnil
  fresh_tracks-Sublist seen (x ∷ xs) =
      chosen (includes (track_id x) seen) (fresh_tracks-Sublist seen xs)
        (fresh_tracks-Sublist (track_id x ∷ seen) xs)
    where
      chosen :
          (b : Bool) {skipped rest : List T}
          → Sublistᴰ skipped xs
          → Sublistᴰ rest xs
          → Sublistᴰ (if b then skipped else x ∷ rest) (x ∷ xs)
      chosen true p q = Sublistᴰ.cons p
      chosen false p q = Sublistᴰ.cons-cons refl q

  -- Tracks that differ from one another and from those seen are all fresh.
  fresh_tracks_all :
      (seen : List String) (items : List T)
      → Distinct (map track_id items)
      → NoneIn seen (map track_id items)
      → fresh_tracks track_id seen items ≡ items
  unfolding fresh_tracks
  fresh_tracks_all seen [] d n = refl
  fresh_tracks_all seen (i ∷ is) d n = rw (n.0) (
      ap (λ r. i ∷ r)
        (fresh_tracks_all (track_id i ∷ seen) is d.1 (NoneIn-cons (track_id i) seen _ d.0 n.1)))

  -- What is there stays, in place, and the fresh tracks follow.
  pub append_unique_tracks-append :
      (existing incoming : List T)
      → append_unique_tracks track_id existing incoming
        ≡ existing ++ fresh_tracks track_id (map track_id existing) incoming
  unfolding append_unique_tracks
  append_unique_tracks-append existing incoming =
      ends (fresh_tracks track_id (map track_id existing) incoming)
    where
      ends :
          (fresh : List T)
          → (if is_empty fresh then existing else existing ++ fresh) ≡ existing ++ fresh
      ends [] = rw append-nil
      ends (x ∷ fresh) = refl

  pub append_unique_tracks-nil :
      (items : List T)
      → Distinct (map track_id items)
      → append_unique_tracks track_id [] items ≡ items
  append_unique_tracks-nil items d =
      append_unique_tracks-append [] items ∙ fresh_tracks_all [] items d (NoneIn-nil _)

  -- A queue of distinct tracks stays one under appendUniqueTracks, even when the tracks that come
  -- in repeat.
  pub append_unique_tracks-Distinct :
      (existing incoming : List T)
      → Distinct (map track_id existing)
      → Distinct (map track_id (append_unique_tracks track_id existing incoming))
  append_unique_tracks-Distinct existing incoming d =
      rw (append_unique_tracks-append, map-append)
        (Distinct-append _ _ d (fresh_tracks-Distinct (map track_id existing) incoming)
          (λ t h. ground (arith, includes-fresh_tracks t (map track_id existing) incoming)))

  -- After appendUniqueTracks, the queue holds the tracks of both lists, and no other.
  pub includes-append_unique_tracks :
      (t : String) (existing incoming : List T)
      → includes t (map track_id (append_unique_tracks track_id existing incoming))
        ≡ includes t (map track_id existing) || includes t (map track_id incoming)
  includes-append_unique_tracks t existing incoming =
      rw (append_unique_tracks-append, map-append, includes-append)
        (ground (arith, includes-fresh_tracks t (map track_id existing) incoming))

  -- appendUniqueTracks keeps the list as it was, in place, and puts some tracks after it, if any:
  -- entries of the incoming list in its order, no two of one id, and exactly those of its ids that
  -- the list did not hold.
  pub append_unique_tracks_fresh :
      (existing incoming : List T)
      → (fresh : List T) × (append_unique_tracks track_id existing incoming ≡ existing ++ fresh)
        × Sublistᴰ fresh incoming
        × Distinct (map track_id fresh)
        × ((t : String)
            → includes t (map track_id fresh)
              ≡ includes t (map track_id incoming) && not (includes t (map track_id existing)))
  append_unique_tracks_fresh existing incoming = (
    fresh_tracks track_id (map track_id existing) incoming,
    append_unique_tracks-append existing incoming,
    fresh_tracks-Sublist (map track_id existing) incoming,
    fresh_tracks-Distinct (map track_id existing) incoming,
    λ t. includes-fresh_tracks t (map track_id existing) incoming,
  )

  fresh_tracks_none :
      (seen : List String) (incoming : List T)
      → ((t : String) → includes t (map track_id incoming) ≡ true → includes t seen ≡ true)
      → fresh_tracks track_id seen incoming ≡ []
  unfolding fresh_tracks
  fresh_tracks_none seen [] h = refl
  fresh_tracks_none seen (x ∷ xs) h = ground (
    arith,
    h (track_id x),
    eq_iff (track_id x) (track_id x),
    fresh_tracks_none seen xs (λ t k. ground (arith, h t)),
  )

  -- Appending the same tracks again changes nothing.
  pub append_unique_tracks_twice :
      (existing incoming : List T)
      → append_unique_tracks track_id (append_unique_tracks track_id existing incoming) incoming
        ≡ append_unique_tracks track_id existing incoming
  append_unique_tracks_twice existing incoming =
      rw (append_unique_tracks-append (append_unique_tracks track_id existing incoming) incoming) (
        rw
          (fresh_tracks_none (map track_id (append_unique_tracks track_id existing incoming))
            incoming (λ t h. ground (arith, includes-append_unique_tracks t existing incoming)))
          (rw append-nil))
