-- ===== src/Server/Tests.antt =====
-- Rooms that follow the source's own tests, and each theorem about the server at one of them.
use spotjam.Prelude.{
  ◌++◌, keep_if, includes, not, List, ◌+ℤ◌, is_none, pos, String, true, false, none, some, [], ◌∷◌,
  arith, ◌≡◌, refl, ◌⊎◌, eq_iff, get_elem?,
}
use spotjam.Prelude.Dict
use spotjam.Server.Heartbeat.{Heartbeat, pong, pongs, beat, beat-pongs-beat}
use spotjam.Protocol.Types.{QueueItem}
use spotjam.Protocol.Pointer.{position_at, ends_at, follow, settle_once}
use spotjam.Protocol.Tracks.{is_empty, append_unique_tracks}
use spotjam.Protocol.Value.{field, Value, num, obj, entry, end}
use spotjam.Protocol.Ops.{OpType, malformed, not_in_room}
use spotjam.Server.RoomState.Core.{
  RoomState, empty_room, broadcasters_with_tracks, map_queue, settle_pointer, with_member,
  any_broadcasting, members_in_order, in_order, rotate,
}
use spotjam.Server.RoomState.Ops.{
  join, enqueue, set_broadcasting, advance, settle, settle_start, clear_queue, settle_loop,
  track_count, turn, play_from, play_head, set_paused,
}
use spotjam.Server.RoomState.View.{build_session_queue, deepest, rounds, round_entries}
use spotjam.Server.RoomState.Sound.{
  IsSound, empty_room-IsSound, join-IsSound, enqueue-IsSound, set_broadcasting-IsSound,
  advance-IsSound,
}
use spotjam.Server.RoomState.Settle.{IsSettled, settle-IsSettled, settle-settle}
use spotjam.Server.RoomState.Prediction.{predicted, settle_once-settle}
use spotjam.Server.RoomState.Position.{position_at-set_paused}
use spotjam.Server.ReplayGuard.{new_guard, admit}
use spotjam.Server.ReplayGuard.Laws.{after, Attempt, admit-replay}
use spotjam.Server.RoomState.Rotation.{advance-session_queue}
use spotjam.Server.HandleOp.{finite_position, OpContext, handle_op}
use spotjam.Server.HandleOp.Laws.{handle_op-IsSound, handle_op_not_idle, handle_op_refused}
use spotjam.Server.HandleOp.Others.{Spared, handle_op-Spared}

abbrev track : String → QueueItem
track t = record { id = t; uri = t; track_id = t; duration_ms = pos 1000 }

abbrev base : RoomState
base = join (join (empty_room "lobby" (pos 5)) "a" "ann") "b" "bob"

abbrev stocked : RoomState
stocked =
    set_broadcasting
      (set_broadcasting
        (enqueue (enqueue base "a" (track "a1" ∷ track "a2" ∷ [])) "b" (track "b1" ∷ [])) "a" true)
      "b" true

abbrev pub playing : RoomState
playing = advance stocked (pos 100)

stocked-IsSound : IsSound stocked
stocked-IsSound =
    set_broadcasting-IsSound
      (set_broadcasting-IsSound
        (enqueue-IsSound
          (enqueue-IsSound
            (join-IsSound (join-IsSound (empty_room-IsSound "lobby" (pos 5)) "a" "ann") "b" "bob")
            "a" _)
          "b" _)
        "a" true)
      "b" true

pub playing-IsSound : IsSound playing
playing-IsSound = advance-IsSound stocked-IsSound (pos 100)

abbrev pub draws : OpContext
draws = record { now = pos 1500; rng = λ k n. 0 }

-- A seek to 10 ms, and a seek without a position.
abbrev seek_op : Value
seek_op = obj (entry "positionMs" (num (pos 10)) end)

handle_op-IsSound_example : IsSound (handle_op playing "a" OpType.seek seek_op draws).state
handle_op-IsSound_example = handle_op-IsSound playing "a" OpType.seek seek_op draws playing-IsSound

handle_op-Spared_example :
    Spared playing (handle_op playing "a" OpType.clear_queue (obj end) draws).state "b"
handle_op-Spared_example =
    handle_op-Spared playing "a" "b" OpType.clear_queue (obj end) draws playing-IsSound
      (λ e. ground (arith, eq_iff "a" "b", e))

settle-IsSettled_example : IsSettled (settle playing (pos 2500)) (pos 2500)
settle-IsSettled_example = settle-IsSettled playing (pos 2500) playing-IsSound.roster

settle-settle_example : settle (settle playing (pos 1500)) (pos 2500) ≡ settle playing (pos 2500)
settle-settle_example =
    settle-settle playing (pos 1500) (pos 2500) playing-IsSound.roster (omega arith)

advance-session_queue_example :
    (advance playing (pos 1100)).pointer
    ≡ follow (get_elem? (build_session_queue playing) 0) (pos 1100)
advance-session_queue_example = advance-session_queue playing (pos 1100) playing-IsSound.roster

runs :
    ((handle_op stocked "a" OpType.seek (obj end) draws).error ≡ some malformed)
    × ((handle_op stocked "a" OpType.clear_queue (obj end) draws).error ≡ none)
    × (is_empty (
          broadcasters_with_tracks (handle_op playing "b" OpType.clear_queue (obj end) draws).state)
        ≡ false)
    × ((handle_op playing "b" OpType.clear_queue (obj end) draws).error ≡ none)
unfolding handle_op settle settle_loop ends_at track_count settle_start clear_queue map_queue
    settle_pointer with_member any_broadcasting members_in_order in_order advance turn play_from
    play_head broadcasters_with_tracks join enqueue set_broadcasting empty_room append_unique_tracks
    Dict.get Dict.put field finite_position ◌+ℤ◌
runs = (refl, refl, refl, refl)

handle_op_refused_example :
    ((Dict.has "a" stocked.members ≡ false)
      × (malformed ≡ not_in_room)
      × ((handle_op stocked "a" OpType.seek (obj end) draws).state ≡ stocked))
    ⊎ ((Dict.has "a" stocked.members ≡ true)
        × (malformed ≡ malformed)
        × ((handle_op stocked "a" OpType.seek (obj end) draws).state ≡ settle stocked draws.now))
handle_op_refused_example =
    handle_op_refused stocked "a" OpType.seek (obj end) draws malformed runs.0

handle_op_not_idle_example :
    is_none (handle_op playing "b" OpType.clear_queue (obj end) draws).state.pointer.item_id ≡ false
handle_op_not_idle_example =
    handle_op_not_idle playing "b" OpType.clear_queue (obj end) draws playing-IsSound runs.3 runs.2

next_ends : ends_at (predicted playing (pos 1100)) ≡ some (pos 2100)
unfolding ends_at settle_once build_session_queue rotate deepest rounds round_entries map_queue
    settle_pointer with_member any_broadcasting members_in_order in_order advance turn play_from
    play_head broadcasters_with_tracks join enqueue set_broadcasting empty_room append_unique_tracks
    Dict.get Dict.put ◌+ℤ◌
next_ends = refl

settle_once-settle_example : predicted playing (pos 1100) ≡ (settle playing (pos 1100)).pointer
settle_once-settle_example =
    settle_once-settle playing (pos 1100) playing-IsSound.roster
      (λ end e. ground (arith, next_ends))

-- A guard for two nonces and a window of a minute, and a second nonce presented to it.
abbrev attempts : List Attempt
attempts = record { nonce = "n2"; now = pos 30000; timestamp = pos 29000 } ∷ []

admit-replay_example :
    (admit
      (after (admit (new_guard (pos 60000) 2) "n1" (pos 1000) (pos 900)).0 attempts)
      "n1"
      (pos 60900)
      (pos 900)).1
    ≡ false
admit-replay_example =
    admit-replay (new_guard (pos 60000) 2) "n1" (pos 1000) (pos 900) attempts (pos 60900) (pos 900)
      (unfold new_guard admit Dict.get in refl) (omega arith, tt)
      (unfold new_guard ◌+ℤ◌ in omega arith) (unfold new_guard in omega arith)

position_at-set_paused_example :
    position_at (set_paused playing true (pos 700)).pointer (pos 700)
    ≡ position_at playing.pointer (pos 700)
position_at-set_paused_example = position_at-set_paused playing true (pos 700)

-- Three sockets, of which one is silent and one answers late.
abbrev beating : Heartbeat
beating = record {
  clients = "x" ∷ "y" ∷ "z" ∷ [];
  answered = "x" ∷ [];
  pinged = [];
  terminated = [];
}

beat-pongs-beat_example :
    (beat (pongs (beat beating) ("z" ∷ "x" ∷ []))).terminated
    ≡ (beat beating).terminated ++ keep_if (λ t. not (includes t ("z" ∷ "x" ∷ []))) beating.clients
beat-pongs-beat_example = beat-pongs-beat beating ("z" ∷ "x" ∷ []) (refl, (refl, (refl, tt)))

-- Two are silent at the first round, and one of these again at the second.
hang_ups : (beat (pongs (beat beating) ("z" ∷ "x" ∷ []))).terminated ≡ "y" ∷ "z" ∷ "y" ∷ []
unfolding beat pong
hang_ups = refl
