-- ===== src/Server/RoomState/View.antt =====
-- apps/server/src/room-state.ts: the room as one recipient sees it.
use spotjam.Prelude.{
  ℕ, zero, suc, ltb, if◌then◌else◌, String, ℤ, none, some, List, [], ◌∷◌, ◌++◌, map, keep_if,
  length, get_elem?,
}
use spotjam.Prelude.Dict
use spotjam.Protocol.Types.{QueueItem, Participant, SessionEntry, RoomSnapshot}
use spotjam.Server.RoomState.Core.{Member, RoomState, members_in_order, is_feeder, rotate}

abbrev pub entry_of : Member → QueueItem → SessionEntry
entry_of member item = record {
  item = item;
  owner_pubkey = member.pubkey;
  owner_name = member.username;
}

-- One round: the track of each member at that depth.
unfoldable pub round_entries : ℕ → List Member → List SessionEntry
round_entries round [] = []
round_entries round (member ∷ rest) = elim (get_elem? member.queue round) [
  | none ↦ round_entries round rest
  | some item ↦ entry_of member item ∷ round_entries round rest
]

-- The rounds from `round` on, `n` of them.
unfoldable pub rounds : ℕ → ℕ → List Member → List SessionEntry
rounds zero round members = []
rounds (suc n) round members = round_entries round members ++ rounds n (suc round) members

unfoldable pub deepest : List Member → ℕ
deepest [] = 0
deepest (member ∷ rest) =
    if ltb (length member.queue) (deepest rest) then deepest rest else length member.queue

abbrev pub feeding_members : RoomState → List Member
feeding_members state = keep_if is_feeder (members_in_order state)

-- `buildSessionQueue`; with no feeder there is no round.
unfoldable pub build_session_queue : RoomState → List SessionEntry
build_session_queue state =
    let rotated = rotate (feeding_members state) state.turn_cursor in
    rounds (deepest rotated) 0 rotated

abbrev pub participant_of : Member → Participant
participant_of member = record {
  pubkey = member.pubkey;
  username = member.username;
  broadcasting = member.broadcasting;
  playlists_revision = member.playlists_revision;
}

-- `listParticipants`
unfoldable pub list_participants : RoomState → List Participant
list_participants state = map participant_of (members_in_order state)

abbrev pub queue_of : RoomState → String → List QueueItem
queue_of state pubkey = elim (Dict.get pubkey state.members) [ none ↦ [] | some m ↦ m.queue ]

-- `projectSnapshot`
unfoldable pub project_snapshot : RoomState → String → ℤ → RoomSnapshot
project_snapshot state for_pubkey now = record {
  room_id = state.room_id;
  participants = list_participants state;
  session_queue = build_session_queue state;
  my_queue = queue_of state for_pubkey;
  pointer = state.pointer;
  server_time = now;
}
