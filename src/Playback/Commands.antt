-- ===== src/Playback/Commands.antt =====
-- apps/desktop/src/lib/playback/commands.ts: the six things that Spotify can be told.
use Prim.Native.String.{◌++◌ as text_append}
use spotjam.Prelude.{
  ℕ, zero, suc, ◌/◌, ◌%◌, ℤ, pos, negsuc, ltb, eqb, String, Bool, true, false, if◌then◌else◌,
}

pub data Command : Type 0 where
  play : String → Command
  seek : ℤ → Command
  pause resume : Command
  set_next : String → Command
  clear_queue : Command

-- `CommandKind`, and the kind of what an expectation awaits
pub data Kind : Type 0 where
  play_kind seek_kind pause_kind resume_kind set_next_kind clear_queue_kind rollover_kind : Kind

abbrev pub kind_of : Command → Kind
kind_of (play uri) = play_kind
kind_of (seek position_ms) = seek_kind
kind_of pause = pause_kind
kind_of resume = resume_kind
kind_of (set_next uri) = set_next_kind
kind_of clear_queue = clear_queue_kind

-- `a === b` of two kinds
abbrev pub same_kind : Kind → Kind → Bool
same_kind play_kind play_kind = true
same_kind seek_kind seek_kind = true
same_kind pause_kind pause_kind = true
same_kind resume_kind resume_kind = true
same_kind set_next_kind set_next_kind = true
same_kind clear_queue_kind clear_queue_kind = true
same_kind rollover_kind rollover_kind = true
same_kind _ _ = false

-- A number in a template string.
digit : ℕ → String
digit d =
    if eqb d 0
    then "0"
    else if eqb d 1
    then "1"
    else if eqb d 2
    then "2"
    else if eqb d 3
    then "3"
    else if eqb d 4
    then "4"
    else if eqb d 5
    then "5"
    else if eqb d 6
    then "6"
    else if eqb d 7
    then "7"
    else if eqb d 8
    then "8"
    else "9"

digits : ℕ → ℕ → String → String
digits zero n rest = rest
digits (suc fuel) n rest =
    let more = digits fuel (n / 10) (text_append (digit (n % 10)) rest) in
    if ltb n 10 then text_append (digit n) rest else more

decimal : ℤ → String
unfolding digits digit
decimal (pos n) = digits (suc n) n ""
decimal (negsuc n) = text_append "-" (digits (suc (suc n)) (suc n) "")

-- `targetOf`
unfoldable pub target_of : Command → String
unfolding decimal
target_of (play uri) = text_append "play:" uri
target_of (seek position_ms) = text_append "seek:" (decimal position_ms)
target_of pause = "pause"
target_of resume = "resume"
target_of (set_next uri) = text_append "set-next:" uri
target_of clear_queue = "clear-queue"
