-- ===== src/Playback/Desired.antt =====
-- apps/desktop/src/lib/playback/desired.ts: what the room says Spotify should be doing.
use spotjam.Prelude.{
  ℤ, String, Bool, not, if◌then◌else◌, Option, none, some, same_option, List, ◌==◌, get_elem?,
}
use spotjam.Protocol.Types.{PlaybackPointer, SessionEntry}
use spotjam.Protocol.Pointer.{position_at, settle_once}

pub data Desired : Type 0 where
  -- uri, position, duration, paused, next uri
  play : String → ℤ → ℤ → Bool → Option String → Desired
  idle : Desired

abbrev pub uri_of : Option SessionEntry → Option String
uri_of none = none
uri_of (some entry) = some entry.item.uri

-- What the pointer asks for, once its item and its uri are known.
abbrev pub wanted : Option String → Option String → PlaybackPointer → Option String → ℤ → Desired
wanted none uri settled next now = idle
wanted (some item) none settled next now = idle
wanted (some item) (some uri) settled next now =
    play uri (position_at settled now) settled.duration_ms settled.is_paused next

-- `desiredAt`
unfoldable pub desired_at : PlaybackPointer → List SessionEntry → ℤ → Desired
desired_at pointer session_queue server_now =
    let settled = settle_once pointer (get_elem? session_queue 0) server_now in
    let consumed = not (same_option (λ a b. a == b) settled.item_id pointer.item_id) in
    let next = if consumed then get_elem? session_queue 1 else get_elem? session_queue 0 in
    wanted settled.item_id settled.uri settled (uri_of next) server_now
