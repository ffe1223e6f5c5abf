-- ===== src/Protocol/Types.antt =====
-- packages/protocol/src/ops.ts and events.ts: the data that rooms are made of. Instants and lengths
-- are whole milliseconds.
use spotjam.Prelude.{ℕ, ℤ, pos, String, Bool, false, Option, none, List}

pub record QueueItem : Type 0 where
  pub id : String
  pub uri : String
  pub track_id : String
  pub duration_ms : ℤ

pub record PlaylistTrack : Type 0 where
  pub uri : String
  pub track_id : String
  pub duration_ms : ℤ

pub record SharedPlaylist : Type 0 where
  pub id : String
  pub name : String
  pub tracks : List PlaylistTrack

pub record Participant : Type 0 where
  pub pubkey : String
  pub username : String
  pub broadcasting : Bool
  pub playlists_revision : ℕ

pub record SessionEntry : Type 0 where
  pub item : QueueItem
  pub owner_pubkey : String
  pub owner_name : String

pub record PlaybackPointer : Type 0 where
  pub item_id : Option String
  pub owner_pubkey : Option String
  pub uri : Option String
  pub started_at_epoch_ms : ℤ
  pub is_paused : Bool
  pub paused_at_offset_ms : ℤ
  pub duration_ms : ℤ

abbrev pub null_pointer : PlaybackPointer
null_pointer = record {
  item_id = none;
  owner_pubkey = none;
  uri = none;
  started_at_epoch_ms = pos 0;
  is_paused = false;
  paused_at_offset_ms = pos 0;
  duration_ms = pos 0;
}

pub record RoomSnapshot : Type 0 where
  pub room_id : String
  pub participants : List Participant
  pub session_queue : List SessionEntry
  pub my_queue : List QueueItem
  pub pointer : PlaybackPointer
  pub server_time : ℤ
