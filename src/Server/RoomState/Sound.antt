-- ===== src/Server/RoomState/Sound.antt =====
-- apps/server/src/room-state.ts: the invariant of a room, against each operation.
use spotjam.Prelude.{
  ℕ, zero, suc, ◌+◌, ℤ, ltb_ℤ, String, Bool, not, ◌||◌, ◌==◌, Option, some, is_none, List, keep_if,
  arith, ◌≡◌, refl, Option-cases, Bool-cases, inl, inr,
}
use spotjam.Prelude.Dict
use spotjam.Prelude.Dict.{get-put, get-delete}
use spotjam.Protocol.Types.{QueueItem, SharedPlaylist}
use spotjam.Protocol.Pointer.{ends_at}
use spotjam.Protocol.Tracks.{is_empty}
use spotjam.Server.RoomState.Core.{
  Member, RoomState, empty_room, with_member, settle_pointer, map_queue, broadcasters_with_tracks,
}
use spotjam.Server.RoomState.Ops
use spotjam.Server.RoomState.Ops.{
  Rng, new_member, join, leave, set_broadcasting, set_public_playlists, advance, settle,
  settle_loop, settle_start, set_paused, seek, track_count,
}
use spotjam.Server.RoomState.Membership
use spotjam.Server.RoomState.Membership.{IsRoster, settle_pointer_keeps, advance-IsRoster}
use spotjam.Server.RoomState.Turns.{advance_cases}
use spotjam.Server.RoomState.Playback
use spotjam.Server.RoomState.Playback.{IsJustified}
use spotjam.Server.RoomState.Queues.{
  UniqueTracks, HasUniqueTracks, with_member-HasUniqueTracks, map_queue-HasUniqueTracks,
  enqueue_keeps, remove_keeps, move_keeps, to_top_keeps, shuffle_keeps,
}

pub record IsSound (s : RoomState) : Type 0 where
  pub roster : IsRoster s
  pub justified : IsJustified s
  pub unique : HasUniqueTracks s

same_members : (s t : RoomState) → t.members ≡ s.members → HasUniqueTracks s → HasUniqueTracks t
same_members s t e h k m found = h k m (ground arith)

-- A member replaced by a record with the same queue.
same_queue :
    (s : RoomState) (k : String) (m n : Member)
    → Dict.get k s.members ≡ some m
    → n.queue ≡ m.queue
    → HasUniqueTracks s
    → HasUniqueTracks (with_member s n)
same_queue s k m n e q h = with_member-HasUniqueTracks s n (rw q (h k m e)) h

join_unique :
    (s : RoomState) (k username : String) → HasUniqueTracks s → HasUniqueTracks (join s k username)
unfolding join
join_unique s k username h = elim (Option-cases (Dict.get k s.members)) [
  | inl e ↦
      rw (e, join)
        (unfold with_member in with_member-HasUniqueTracks s (new_member k username) tt h)
  | inr (m, e) ↦ rw (e, join) (same_queue s k m (record m { username = username }) e refl h)
]

leave_unique : (s : RoomState) (k : String) → HasUniqueTracks s → HasUniqueTracks (leave s k)
unfolding leave
leave_unique s k h = elim (Bool-cases (Dict.has k s.members)) [
  | inl e ↦
      let t : RoomState = record s {
        members = Dict.delete k s.members;
        order = keep_if (λ key. not (key == k)) s.order;
      } in
      rw (e, leave)
        (same_members t (settle_pointer t) (settle_pointer_keeps t).0
          (λ j m found. h j m (ground (arith, get-delete k j s.members))))
  | inr e ↦ rw (e, leave) h
]

set_broadcasting_unique :
    (s : RoomState) (k : String) (b : Bool)
    → HasUniqueTracks s
    → HasUniqueTracks (set_broadcasting s k b)
unfolding set_broadcasting
set_broadcasting_unique s k b h = elim (Option-cases (Dict.get k s.members)) [
  | inl e ↦ rw (e, set_broadcasting) h
  | inr (m, e) ↦
      let t = with_member s (record m { broadcasting = b }) in
      rw (e, set_broadcasting)
        (same_members t (settle_pointer t) (settle_pointer_keeps t).0
          (same_queue s k m (record m { broadcasting = b }) e refl h))
]

set_public_playlists_unique :
    (s : RoomState) (k : String) (ps : List SharedPlaylist)
    → HasUniqueTracks s
    → HasUniqueTracks (set_public_playlists s k ps)
unfolding set_public_playlists
set_public_playlists_unique s k ps h = elim (Option-cases (Dict.get k s.members)) [
  | inl e ↦ rw (e, set_public_playlists) h
  | inr (m, e) ↦
      rw (e, set_public_playlists)
        (same_queue s k m
          (record m { public_playlists = ps; playlists_revision = m.playlists_revision + 1 }) e refl
          h)
]

advance_unique :
    (s : RoomState) (now : ℤ) → IsRoster s → HasUniqueTracks s → HasUniqueTracks (advance s now)
advance_unique s now r h = elim (advance_cases s now r) [
  | inl (_, e) ↦ rw e h
  | inr (f, e) ↦
      let before = h f.member.pubkey f.member f.found in
      let tail : UniqueTracks f.rest = (rw f.queue_is at before).1 in
      rw e (
        unfold with_member in
        with_member-HasUniqueTracks s (record f.member { queue = f.rest }) tail h)
]

settle_loop_unique :
    (fuel : ℕ) (s : RoomState) (now : ℤ)
    → IsRoster s
    → HasUniqueTracks s
    → HasUniqueTracks (settle_loop fuel s now)
unfolding settle_loop
settle_loop_unique zero s now r h = h
settle_loop_unique (suc fuel) s now r h = elim (Option-cases (ends_at s.pointer)) [
  | inl e ↦ rw (e, settle_loop) h
  | inr (end, e) ↦
      let later =
        settle_loop_unique fuel (advance s end) now (advance-IsRoster s end r)
          (advance_unique s end r h) in
      rw (e, settle_loop)
        (elim (Bool-cases (ltb_ℤ now end)) [ inl t ↦ rw t h | inr t ↦ rw t later ])
]

set_paused_unique :
    (s : RoomState) (paused : Bool) (now : ℤ)
    → HasUniqueTracks s
    → HasUniqueTracks (set_paused s paused now)
unfolding set_paused
set_paused_unique s paused now h = same_members s (set_paused s paused now) (ground arith) h

seek_unique :
    (s : RoomState) (position now : ℤ) → HasUniqueTracks s → HasUniqueTracks (seek s position now)
unfolding seek
seek_unique s position now h = same_members s (seek s position now) (ground arith) h

pub empty_room-IsSound : (room_id : String) (now : ℤ) → IsSound (empty_room room_id now)
unfolding empty_room Dict.get
empty_room-IsSound room_id now = record {
  roster = record { keyed = λ k m e. cc; listed = λ k. refl; distinct = tt };
  justified = λ e. absurd (ground arith);
  unique = λ k m e. absurd (ground arith);
}

module _ {s : RoomState} (v : IsSound s) where
  pub join-IsSound : (k username : String) → IsSound (join s k username)
  join-IsSound k username = record {
    roster = Membership.join-IsRoster s k username v.roster;
    justified = Playback.join-IsJustified s k username v.roster v.justified;
    unique = join_unique s k username v.unique;
  }

  pub leave-IsSound : (k : String) → IsSound (leave s k)
  leave-IsSound k = record {
    roster = Membership.leave-IsRoster s k v.roster;
    justified = Playback.leave-IsJustified s k v.roster v.justified;
    unique = leave_unique s k v.unique;
  }

  pub set_broadcasting-IsSound : (k : String) (b : Bool) → IsSound (set_broadcasting s k b)
  set_broadcasting-IsSound k b = record {
    roster = Membership.set_broadcasting-IsRoster s k b v.roster;
    justified = Playback.set_broadcasting-IsJustified s k b v.roster v.justified;
    unique = set_broadcasting_unique s k b v.unique;
  }

  pub set_public_playlists-IsSound :
      (k : String) (ps : List SharedPlaylist) → IsSound (set_public_playlists s k ps)
  set_public_playlists-IsSound k ps = record {
    roster = Membership.set_public_playlists-IsRoster s k ps v.roster;
    justified = Playback.set_public_playlists-IsJustified s k ps v.roster v.justified;
    unique = set_public_playlists_unique s k ps v.unique;
  }

  map_queue-IsSound :
      (k : String) (f : List QueueItem → List QueueItem)
      → ((q : List QueueItem) → UniqueTracks q → UniqueTracks (f q))
      → IsSound (map_queue s k f)
  map_queue-IsSound k f keeps = record {
    roster = Membership.map_queue-IsRoster s k f v.roster;
    justified = Playback.map_queue-IsJustified s k f v.roster v.justified;
    unique = map_queue-HasUniqueTracks s k f keeps v.unique;
  }

  pub enqueue-IsSound : (k : String) (items : List QueueItem) → IsSound (Ops.enqueue s k items)
  unfolding Ops.enqueue
  enqueue-IsSound k items = map_queue-IsSound k _ (enqueue_keeps items)

  pub remove-IsSound : (k id : String) → IsSound (Ops.remove s k id)
  unfolding Ops.remove
  remove-IsSound k id = map_queue-IsSound k _ (remove_keeps id)

  pub move_many-IsSound :
      (k : String) (ids : List String) (before : Option String)
      → IsSound (Ops.move_many s k ids before)
  unfolding Ops.move_many
  move_many-IsSound k ids before = map_queue-IsSound k _ (move_keeps ids before)

  pub send_to_top-IsSound : (k id : String) → IsSound (Ops.send_to_top s k id)
  unfolding Ops.send_to_top
  send_to_top-IsSound k id = map_queue-IsSound k _ (to_top_keeps id)

  pub shuffle-IsSound : (k : String) (rng : Rng) → IsSound (Ops.shuffle s k rng)
  unfolding Ops.shuffle
  shuffle-IsSound k rng = map_queue-IsSound k _ (λ q. shuffle_keeps (Ops.last_index q) 0 rng q)

  pub clear_queue-IsSound : (k : String) → IsSound (Ops.clear_queue s k)
  unfolding Ops.clear_queue
  clear_queue-IsSound k = map_queue-IsSound k _ (λ q u. tt)

  pub advance-IsSound : (now : ℤ) → IsSound (advance s now)
  advance-IsSound now = record {
    roster = advance-IsRoster s now v.roster;
    justified = Playback.advance-IsJustified s now v.roster;
    unique = advance_unique s now v.roster v.unique;
  }

  pub settle-IsSound : (now : ℤ) → IsSound (settle s now)
  unfolding settle
  settle-IsSound now = record {
    roster = Membership.settle_loop-IsRoster _ s now v.roster;
    justified = Playback.settle_loop-IsJustified _ s now v.roster v.justified;
    unique = settle_loop_unique _ s now v.roster v.unique;
  }

  pub set_paused-IsSound : (paused : Bool) (now : ℤ) → IsSound (set_paused s paused now)
  set_paused-IsSound paused now = record {
    roster = Membership.set_paused-IsRoster s paused now v.roster;
    justified = Playback.set_paused-IsJustified s paused now v.justified;
    unique = set_paused_unique s paused now v.unique;
  }

  pub seek-IsSound : (position now : ℤ) → IsSound (seek s position now)
  seek-IsSound position now = record {
    roster = Membership.seek-IsRoster s position now v.roster;
    justified = Playback.seek-IsJustified s position now v.justified;
    unique = seek_unique s position now v.unique;
  }

pub settle_start-IsSound : {s : RoomState} → IsSound s → (now : ℤ) → IsSound (settle_start s now)
unfolding settle_start
settle_start-IsSound {s} v now =
    elim (Bool-cases (not (is_none s.pointer.item_id) || is_empty (broadcasters_with_tracks s))) [
      | inl e ↦ rw (e, settle_start) v
      | inr e ↦ rw (e, settle_start) (advance-IsSound v now)
    ]
