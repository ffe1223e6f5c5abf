-- ===== src/Server/RoomState/Ops.antt =====
-- apps/server/src/room-state.ts: membership, queue operations, playlists and playback.
use spotjam.Prelude.{
  ℕ, zero, suc, ◌+◌, ◌%◌, ℤ, pos, ◌-ℤ◌, ltb_ℤ, max_ℤ, min_ℤ, String, Bool, true, false, not, ◌||◌,
  ◌==◌, if◌then◌else◌, Option, none, some, is_none, List, [], ◌∷◌, ◌++◌, keep_if, length, get_elem?,
  set,
}
use spotjam.Prelude.Dict
use spotjam.Protocol.Types.{QueueItem, SharedPlaylist, PlaybackPointer, null_pointer}
use spotjam.Protocol.Tracks.{append_unique_tracks, is_empty}
use spotjam.Protocol.Tracks
use spotjam.Protocol.Pointer.{ends_at}
use spotjam.Server.RoomState.Core.{
  Member, RoomState, with_member, settle_pointer, map_queue, broadcasters_with_tracks,
}

abbrev pub new_member : String → String → Member
new_member pubkey username = record {
  pubkey = pubkey;
  username = username;
  broadcasting = false;
  queue = [];
  public_playlists = [];
  playlists_revision = 0;
}

-- `join`
unfoldable pub join : RoomState → String → String → RoomState
unfolding with_member
join state pubkey username = elim (Dict.get pubkey state.members) [
  | some existing ↦ with_member state (record existing { username = username })
  | none ↦ record state {
    members = Dict.put pubkey (new_member pubkey username) state.members;
    order = state.order ++ pubkey ∷ [];
  }
]

-- `leave`
unfoldable pub leave : RoomState → String → RoomState
leave state pubkey =
    if Dict.has pubkey state.members
    then settle_pointer (record state {
      members = Dict.delete pubkey state.members;
      order = keep_if (λ key. not (key == pubkey)) state.order;
    })
    else state

-- `isDeserted`
unfoldable pub is_deserted : RoomState → Bool
is_deserted state = is_empty state.members

-- `setBroadcasting`
unfoldable pub set_broadcasting : RoomState → String → Bool → RoomState
set_broadcasting state pubkey broadcasting = elim (Dict.get pubkey state.members) [
  | none ↦ state
  | some member ↦ settle_pointer (with_member state (record member { broadcasting = broadcasting }))
]

-- `enqueue`
unfoldable pub enqueue : RoomState → String → List QueueItem → RoomState
enqueue state pubkey items =
    map_queue state pubkey (λ queue. append_unique_tracks (λ item. item.track_id) queue items)

-- `remove`
unfoldable pub remove : RoomState → String → String → RoomState
remove state pubkey item_id =
    map_queue state pubkey (λ queue. keep_if (λ item. not (item.id == item_id)) queue)

-- `moveMany`
unfoldable pub move_many : RoomState → String → List String → Option String → RoomState
move_many state pubkey item_ids before_item_id =
    map_queue state pubkey
      (λ queue. Tracks.move_many (λ item. item.id) queue item_ids before_item_id)

-- `findIndex` and `splice(index, 1)` at once: the first item of that id, and the others in order.
unfoldable pub extract : String → List QueueItem → Option (QueueItem × List QueueItem)
extract item_id [] = none
extract item_id (item ∷ rest) =
    if item.id == item_id then some (item, rest) else elim (extract item_id rest) [
      | none ↦ none
      | some (moved, next) ↦ some (moved, item ∷ next)
    ]

unfoldable pub to_top : String → List QueueItem → List QueueItem
to_top item_id queue = elim (extract item_id queue) [
  | none ↦ queue
  | some (moved, next) ↦ moved ∷ next
]

-- `sendToTop`
unfoldable pub send_to_top : RoomState → String → String → RoomState
send_to_top state pubkey item_id = map_queue state pubkey (to_top item_id)

-- `Math.floor(rng() * n)` for the k-th number drawn from the source.
abbrev pub Rng : Type 0
Rng = ℕ → ℕ → ℕ

-- One exchange; indices out of bounds are passed over.
abbrev pub exchange : List QueueItem → ℕ → ℕ → List QueueItem
exchange next i j = elim (get_elem? next i) [
  | none ↦ next
  | some a ↦ elim (get_elem? next j) [ none ↦ next | some b ↦ set (set next i b) j a ]
]

-- The loop of `shuffle` from index `i` down to 1, `k` numbers having been drawn.
unfoldable pub shuffle_from : ℕ → ℕ → Rng → List QueueItem → List QueueItem
shuffle_from zero k rng next = next
shuffle_from (suc i) k rng next =
    shuffle_from i (suc k) rng (exchange next (suc i) (rng k (suc (suc i))))

abbrev pub last_index : List QueueItem → ℕ
last_index [] = 0
last_index (item ∷ rest) = length rest

-- `shuffle`
unfoldable pub shuffle : RoomState → String → Rng → RoomState
shuffle state pubkey rng =
    map_queue state pubkey (λ queue. shuffle_from (last_index queue) 0 rng queue)

-- `clearQueue`
unfoldable pub clear_queue : RoomState → String → RoomState
clear_queue state pubkey = map_queue state pubkey (λ queue. [])

-- `setPublicPlaylists`
unfoldable pub set_public_playlists : RoomState → String → List SharedPlaylist → RoomState
set_public_playlists state pubkey playlists = elim (Dict.get pubkey state.members) [
  | none ↦ state
  | some member ↦ with_member state (record member {
    public_playlists = playlists;
    playlists_revision = member.playlists_revision + 1;
  })
]

-- `publicPlaylistsOf`
unfoldable pub public_playlists_of : RoomState → String → List SharedPlaylist
public_playlists_of state pubkey = elim (Dict.get pubkey state.members) [
  | none ↦ []
  | some member ↦ member.public_playlists
]

-- The pointer at the head of a member's queue.
abbrev pub pointer_to : QueueItem → Member → ℤ → PlaybackPointer
pointer_to head member now = record {
  item_id = some head.id;
  owner_pubkey = some member.pubkey;
  uri = some head.uri;
  started_at_epoch_ms = now;
  is_paused = false;
  paused_at_offset_ms = pos 0;
  duration_ms = head.duration_ms;
}

abbrev pub cleared : RoomState → RoomState
cleared state = record state { pointer = null_pointer }

-- The room once the head of a member's queue plays.
abbrev pub played : RoomState → ℤ → Member → QueueItem → List QueueItem → RoomState
played state now member head rest = record (with_member state (record member { queue = rest })) {
  turn_cursor = state.turn_cursor + 1;
  pointer = pointer_to head member now;
}

-- `advance` from where its feeder is known.
unfoldable pub play_head : RoomState → ℤ → Member → List QueueItem → RoomState
play_head state now member [] = cleared state
play_head state now member (head ∷ rest) = played state now member head rest

unfoldable pub play_from : RoomState → ℤ → String → RoomState
play_from state now next = elim (Dict.get next state.members) [
  | none ↦ cleared state
  | some member ↦ play_head state now member member.queue
]

-- `feeders[state.turnCursor % feeders.length]`, none without feeders
unfoldable pub turn : RoomState → Option String
turn state =
    let feeders = broadcasters_with_tracks state in
    if is_empty feeders then none else get_elem? feeders (state.turn_cursor % length feeders)

-- `advance`
unfoldable pub advance : RoomState → ℤ → RoomState
advance state now = elim (turn state) [
  | none ↦ cleared state
  | some next ↦ play_from state now next
]

-- The tracks in all queues of a room.
unfoldable pub track_count : List (String × Member) → ℕ
track_count [] = 0
track_count ((k, member) ∷ rest) = length member.queue + track_count rest

-- The loop of `settle`, on fuel.
unfoldable pub settle_loop : ℕ → RoomState → ℤ → RoomState
settle_loop zero current now = current
settle_loop (suc fuel) current now = elim (ends_at current.pointer) [
  | none ↦ current
  | some end ↦
      let caught_up = settle_loop fuel (advance current end) now in
      if ltb_ℤ now end then current else caught_up
]

-- `settle`: each round takes a track or clears the pointer.
unfoldable pub settle : RoomState → ℤ → RoomState
settle state now = settle_loop (suc (suc (track_count state.members))) state now

-- `settleStart`
unfoldable pub settle_start : RoomState → ℤ → RoomState
settle_start state now =
    if not (is_none state.pointer.item_id) || is_empty (broadcasters_with_tracks state)
    then state
    else advance state now

abbrev pub same_flag : Bool → Bool → Bool
same_flag true b = b
same_flag false b = not b

-- `setPaused`
unfoldable pub set_paused : RoomState → Bool → ℤ → RoomState
set_paused state paused now =
    let pointer = state.pointer in
    if is_none pointer.item_id || same_flag pointer.is_paused paused
    then state
    else if paused
    then record state {
      pointer = record pointer {
        is_paused = true;
        paused_at_offset_ms = max_ℤ (pos 0) (now -ℤ pointer.started_at_epoch_ms);
      };
    }
    else record state {
      pointer = record pointer {
        is_paused = false;
        started_at_epoch_ms = now -ℤ pointer.paused_at_offset_ms;
        paused_at_offset_ms = pos 0;
      };
    }

-- `seek`
unfoldable pub seek : RoomState → ℤ → ℤ → RoomState
seek state position_ms now =
    let pointer = state.pointer in
    if is_none pointer.item_id
    then state
    else let position = min_ℤ (max_ℤ (pos 0) position_ms) pointer.duration_ms in
      record state {
        pointer =
            if pointer.is_paused
            then record pointer { paused_at_offset_ms = position }
            else record pointer {
              started_at_epoch_ms = now -ℤ position;
              paused_at_offset_ms = pos 0;
            };
      }
