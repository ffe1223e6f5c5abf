-- ===== src/Client/View.antt =====
-- packages/room/src/lib/room-client.ts: what a client keeps of a room, how a server event changes
-- it, and the getters.
pub mod Members
pub mod Peers
pub mod Backoff
use spotjam.Prelude.{
  ℕ, ◌*◌, ◌^◌, ltb, ℤ, pos, pos_part, String, Bool, true, false, ◌==◌, if◌then◌else◌, Option, none,
  some, List, [], ◌∷◌, map, keep_if, includes, Map,
}
use spotjam.Prelude.Dict
use spotjam.Protocol.Types.{
  QueueItem, SharedPlaylist, Participant, SessionEntry, PlaybackPointer, RoomSnapshot, null_pointer,
}
use spotjam.Protocol.Ops.{
  ErrorCode, bad_signature, stale_envelope, replay, unknown_identity, username_taken,
  invalid_username, not_in_room, malformed, internal,
}
use spotjam.Server.World.{ServerEvent}
use spotjam.Client.ClockOffset.{OffsetSample, fold_sample, offset_of, server_now}

-- `SocketPhase`
pub data SocketPhase : Type 0 where
  connecting connected disconnected : SocketPhase

-- `ConnectionStatus`
pub record ConnectionStatus : Type 0 where
  pub socket : SocketPhase
  pub synced : Bool

-- `RoomError`, whose message is left out
pub record RoomError : Type 0 where
  pub code : ErrorCode
  pub human_message : String

pub record RoomView : Type 0 where
  pub snapshot : Option RoomSnapshot
  pub status : ConnectionStatus
  pub last_error : Option RoomError
  pub peer_playlists : Map (List SharedPlaylist)
  pub clock_offset_ms : Option ℤ
  pub offset_samples : List OffsetSample

abbrev pub initial_view : RoomView
initial_view = record {
  snapshot = none;
  status = record { socket = connecting; synced = false };
  last_error = none;
  peer_playlists = [];
  clock_offset_ms = none;
  offset_samples = [];
}

-- `humanMessageFor`
unfoldable pub human_message_for : ErrorCode → String
human_message_for stale_envelope =
    "This machine's clock is off, so the server rejected the message. Sync your system clock and rejoin."
human_message_for unknown_identity = "The server does not know this key yet."
human_message_for username_taken = "That name is already taken by another key."
human_message_for invalid_username = "That name is not allowed."
human_message_for bad_signature = "The server refused a signature from this identity."
human_message_for replay = "The server saw that message twice."
human_message_for not_in_room = "You are not in that room any more."
human_message_for malformed = "The server could not read that message."
human_message_for internal = "The server hit an internal error."

-- `describeError`
unfoldable pub describe_error : ErrorCode → RoomError
describe_error code = record { code = code; human_message = human_message_for code }

-- `retainMembers`
unfoldable pub retain_members :
    Map (List SharedPlaylist) → List Participant → Map (List SharedPlaylist)
retain_members cached participants =
    keep_if (λ kept. includes kept.0 (map (λ p. p.pubkey) participants)) cached

-- `reduce` at a snapshot
unfoldable pub take_snapshot : RoomView → RoomSnapshot → ℤ → RoomView
unfolding fold_sample offset_of retain_members
take_snapshot view snapshot local_now =
    let samples = fold_sample view.offset_samples snapshot.server_time local_now in
    record {
      snapshot = some snapshot;
      status = record { socket = view.status.socket; synced = true };
      last_error = none;
      peer_playlists = retain_members view.peer_playlists snapshot.participants;
      clock_offset_ms = offset_of samples;
      offset_samples = samples;
    }

-- `reduce`
unfoldable pub reduce : RoomView → ServerEvent → ℤ → RoomView
unfolding take_snapshot describe_error
reduce view (ServerEvent.room_state snapshot) local_now = take_snapshot view snapshot local_now
reduce view (ServerEvent.registered pubkey username) local_now = view
reduce view (ServerEvent.room_list rooms) local_now = view
reduce view (ServerEvent.room_detail snapshot) local_now = view
reduce view (ServerEvent.playlists room_id owner playlists) local_now = record view {
  peer_playlists = Dict.put owner playlists view.peer_playlists;
}
reduce view (ServerEvent.error code) local_now = record view {
  last_error = some (describe_error code);
}

-- `view.snapshot?.… ?? fallback`
abbrev pub of_snapshot {ℓ} : {A : Type ℓ} → (RoomSnapshot → A) → A → RoomView → A
of_snapshot part fallback view = elim view.snapshot [ none ↦ fallback | some s ↦ part s ]

-- `participantsOf`
unfoldable pub participants_of : RoomView → List Participant
participants_of view = of_snapshot (λ s. s.participants) [] view

-- `sessionQueueOf`
unfoldable pub session_queue_of : RoomView → List SessionEntry
session_queue_of view = of_snapshot (λ s. s.session_queue) [] view

-- `myQueueOf`
unfoldable pub my_queue_of : RoomView → List QueueItem
my_queue_of view = of_snapshot (λ s. s.my_queue) [] view

-- `queueToRestore`
unfoldable pub queue_to_restore : List QueueItem → RoomSnapshot → List QueueItem
queue_to_restore stored snapshot = elim snapshot.my_queue [ [] ↦ stored | i ∷ is ↦ [] ]

-- `pointerOf`
unfoldable pub pointer_of : RoomView → PlaybackPointer
pointer_of view = of_snapshot (λ s. s.pointer) null_pointer view

-- `serverNowOf`
unfoldable pub server_now_of : RoomView → ℤ → ℤ
unfolding server_now
server_now_of view local_now = elim view.clock_offset_ms [
  | none ↦ server_now (pos 0) local_now
  | some offset ↦ server_now offset local_now
]

-- `queueOf`
unfoldable pub queue_of : RoomView → String → String → List QueueItem
unfolding my_queue_of session_queue_of
queue_of view pubkey me =
    if pubkey == me
    then my_queue_of view
    else map (λ entry. entry.item)
        (keep_if (λ entry. entry.owner_pubkey == pubkey) (session_queue_of view))

-- `peerPlaylistsOf`
unfoldable pub peer_playlists_of : RoomView → String → List SharedPlaylist
peer_playlists_of view pubkey = elim (Dict.get pubkey view.peer_playlists) [
  | none ↦ []
  | some playlists ↦ playlists
]

-- `participants.find((p) => p.pubkey === pubkey)`
unfoldable pub find_participant : String → List Participant → Option Participant
find_participant pubkey [] = none
find_participant pubkey (p ∷ rest) =
    if p.pubkey == pubkey then some p else find_participant pubkey rest

-- `isBroadcasting`
unfoldable pub is_broadcasting : RoomView → String → Bool
unfolding participants_of find_participant
is_broadcasting view me = elim (find_participant me (participants_of view)) [
  | none ↦ false
  | some p ↦ p.broadcasting
]

-- `usernameOf`
unfoldable pub username_of : RoomView → Option String → String
unfolding participants_of find_participant
username_of view none = "someone"
username_of view (some pubkey) = elim (find_participant pubkey (participants_of view)) [
  | none ↦ "someone"
  | some p ↦ p.username
]

abbrev pub base_reconnect_ms : ℕ
base_reconnect_ms = 500

abbrev pub max_reconnect_ms : ℕ
max_reconnect_ms = 15000

-- `backoffMs`
unfoldable pub backoff_ms : ℤ → ℕ
backoff_ms attempt =
    let exponential = base_reconnect_ms * 2 ^ pos_part attempt in
    if ltb max_reconnect_ms exponential then max_reconnect_ms else exponential
