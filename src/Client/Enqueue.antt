-- ===== src/Client/Enqueue.antt =====
-- packages/room/src/lib/enqueue.ts: the lengths of tracks, looked up before they are queued. `resolve`
-- is the port that finds the length of the track at an uri, or none.
use spotjam.Prelude.{
  ℕ, suc, ℤ, pos, ltb_ℤ, String, ◌≢◌, if◌then◌else◌, Bool-cases, Option, none, some, List, [], ◌∷◌,
  map, arith, inl, inr, keep_if,
}
use spotjam.Protocol.Types.{QueueItem, PlaylistTrack}
use spotjam.Client.Ops.{DurationedTrack, mint, to_queue_items}
use spotjam.Client.Ops.Wire.{All, IsItem, IsTrack}

-- `ParsedTrack`
pub record ParsedTrack : Type 0 where
  pub uri : String
  pub track_id : String

module _ (resolve : String → Option ℤ) where
  -- The loop of `withDurations`: what a track gives, before those of the rest.
  abbrev with_length : ParsedTrack → Option ℤ → List DurationedTrack → List DurationedTrack
  with_length track none rest = rest
  with_length track (some duration_ms) rest =
      if ltb_ℤ (pos 0) duration_ms
      then record { uri = track.uri; track_id = track.track_id; duration_ms = duration_ms } ∷ rest
      else rest

  -- `withDurations`
  unfoldable pub with_durations : List ParsedTrack → List DurationedTrack
  with_durations [] = []
  with_durations (track ∷ rest) = with_length track (resolve track.uri) (with_durations rest)

  -- `resolveQueueItems`
  unfoldable pub resolve_queue_items : (ℕ → String) → List ParsedTrack → List QueueItem
  unfolding with_durations
  resolve_queue_items random_uuid tracks = to_queue_items random_uuid (with_durations tracks)

  abbrev pub playlist_track_of : DurationedTrack → PlaylistTrack
  playlist_track_of track = record {
    uri = track.uri;
    track_id = track.track_id;
    duration_ms = track.duration_ms;
  }

  -- `resolvePlaylistTracks`
  unfoldable pub resolve_playlist_tracks : List ParsedTrack → List PlaylistTrack
  unfolding with_durations
  resolve_playlist_tracks tracks = map playlist_track_of (with_durations tracks)

  abbrev pub IsParsed : ParsedTrack → Type 0
  IsParsed track = (track.uri ≢ "") × (track.track_id ≢ "")

  with_durations-IsTrack :
      (tracks : List ParsedTrack)
      → All IsParsed tracks
      → All (λ d. IsTrack (playlist_track_of d)) (with_durations tracks)
  unfolding with_durations
  with_durations-IsTrack [] h = tt
  with_durations-IsTrack (track ∷ rest) h =
      found (resolve track.uri) (with_durations-IsTrack rest h.1)
    where
      found :
          (o : Option ℤ)
          → All (λ d. IsTrack (playlist_track_of d)) (with_durations rest)
          → All (λ d. IsTrack (playlist_track_of d)) (with_length track o (with_durations rest))
      found none ih = ih
      found (some n) ih = elim (Bool-cases (ltb_ℤ (pos 0) n)) [
        | inl e ↦ rw (e, All) ((h.0.0, h.0.1, ground arith), ih)
        | inr e ↦ rw (e, All) ih
      ]

  -- What is shared of parsed tracks is what the server takes, whatever the port finds.
  pub resolve_playlist_tracks-IsTrack :
      (tracks : List ParsedTrack)
      → All IsParsed tracks
      → All IsTrack (resolve_playlist_tracks tracks)
  unfolding resolve_playlist_tracks
  resolve_playlist_tracks-IsTrack tracks h =
      mapped (with_durations tracks) (with_durations-IsTrack tracks h)
    where
      mapped :
          (ds : List DurationedTrack)
          → All (λ d. IsTrack (playlist_track_of d)) ds
          → All IsTrack (map playlist_track_of ds)
      mapped [] k = tt
      mapped (d ∷ ds) k = (k.0, mapped ds k.1)

  minted :
      (random_uuid : ℕ → String)
      → ((n : ℕ) → random_uuid n ≢ "")
      → (at : ℕ) (ds : List DurationedTrack) → All (λ d. IsTrack (playlist_track_of d)) ds
      → All IsItem (mint random_uuid at (keep_if (λ d. ltb_ℤ (pos 0) d.duration_ms) ds))
  unfolding mint
  minted random_uuid ids at [] k = tt
  minted random_uuid ids at (d ∷ ds) k = elim (Bool-cases (ltb_ℤ (pos 0) d.duration_ms)) [
    | inl e ↦ rw (e, All) ((ids at, k.0.0, k.0.1, k.0.2), minted random_uuid ids (suc at) ds k.1)
    | inr e ↦ rw (e, All) (minted random_uuid ids at ds k.1)
  ]

  -- What is queued of parsed tracks is what the server takes, whatever the port finds.
  pub resolve_queue_items-IsItem :
      (random_uuid : ℕ → String) (tracks : List ParsedTrack)
      → ((n : ℕ) → random_uuid n ≢ "")
      → All IsParsed tracks
      → All IsItem (resolve_queue_items random_uuid tracks)
  unfolding resolve_queue_items to_queue_items
  resolve_queue_items-IsItem random_uuid tracks ids h =
      minted random_uuid ids 0 (with_durations tracks) (with_durations-IsTrack tracks h)
