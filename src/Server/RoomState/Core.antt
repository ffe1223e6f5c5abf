-- ===== src/Server/RoomState/Core.antt =====
-- apps/server/src/room-state.ts: the state of a room, turn order, and the pointer's upkeep.
use spotjam.Prelude.{
  ℕ, ◌+◌, ◌%◌, ℤ, String, Bool, true, false, ◌&&◌, ◌||◌, if◌then◌else◌, none, some, is_none, List,
  [], ◌∷◌, ◌++◌, map, keep_if, some_of, includes, length, take, drop, Map,
}
use spotjam.Prelude.Dict
use spotjam.Protocol.Types.{QueueItem, SharedPlaylist, PlaybackPointer, null_pointer}

pub record Member : Type 0 where
  pub pubkey : String
  pub username : String
  pub broadcasting : Bool
  pub queue : List QueueItem
  pub public_playlists : List SharedPlaylist
  pub playlists_revision : ℕ

pub record RoomState : Type 0 where
  pub room_id : String
  pub members : Map Member
  pub order : List String
  pub pointer : PlaybackPointer
  pub turn_cursor : ℕ
  pub created_at_epoch_ms : ℤ

-- `emptyRoom`
unfoldable pub empty_room : String → ℤ → RoomState
empty_room room_id now = record {
  room_id = room_id;
  members = [];
  order = [];
  pointer = null_pointer;
  turn_cursor = 0;
  created_at_epoch_ms = now;
}

-- The loop of `membersInOrder`, with what it has seen.
unfoldable pub in_order : Map Member → List String → List String → List Member
in_order members seen [] = []
in_order members seen (pubkey ∷ rest) =
    let skipped = in_order members seen rest in
    let later = in_order members (pubkey ∷ seen) rest in
    if includes pubkey seen
    then skipped
    else elim (Dict.get pubkey members) [ none ↦ later | some member ↦ member ∷ later ]

-- `membersInOrder`
unfoldable pub members_in_order : RoomState → List Member
members_in_order state = in_order state.members [] state.order

-- `member.queue.length > 0`
abbrev pub has_tracks : List QueueItem → Bool
has_tracks [] = false
has_tracks (item ∷ rest) = true

abbrev pub is_feeder : Member → Bool
is_feeder member = member.broadcasting && has_tracks member.queue

-- `broadcastersWithTracks`
unfoldable pub broadcasters_with_tracks : RoomState → List String
broadcasters_with_tracks state =
    map (λ member. member.pubkey) (keep_if is_feeder (members_in_order state))

-- `rotate`
unfoldable pub rotate {ℓ} : {A : Type ℓ} → List A → ℕ → List A
rotate [] by = []
rotate (x ∷ xs) by =
    let items = x ∷ xs in
    let n = length items in let offset = (by % n + n) % n in drop offset items ++ take offset items

-- `withMember`
unfoldable pub with_member : RoomState → Member → RoomState
with_member state member = record state { members = Dict.put member.pubkey member state.members }

unfoldable pub any_broadcasting : RoomState → Bool
any_broadcasting state = some_of (λ member. member.broadcasting) (members_in_order state)

-- `settlePointer`
unfoldable pub settle_pointer : RoomState → RoomState
settle_pointer state =
    if any_broadcasting state || is_none state.pointer.item_id
    then state
    else record state { pointer = null_pointer }

-- `mapQueue`
unfoldable pub map_queue : RoomState → String → (List QueueItem → List QueueItem) → RoomState
map_queue state pubkey transform = elim (Dict.get pubkey state.members) [
  | none ↦ state
  | some member ↦
      settle_pointer (with_member state (record member { queue = transform member.queue }))
]
