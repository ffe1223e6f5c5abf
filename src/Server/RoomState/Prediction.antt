-- ===== src/Server/RoomState/Prediction.antt =====
-- packages/protocol/src/pointer.ts against apps/server/src/room-state.ts: what a client makes of the
-- last snapshot, and what the server makes of the room.
use spotjam.Prelude.{
  ℤ, ltb_ℤ, ◌<ℤ◌, some, get_elem?, arith, ◌≡◌, sym, Option-cases, Bool-cases, inl, inr,
}
use spotjam.Protocol.Types.{PlaybackPointer}
use spotjam.Protocol.Pointer.{ends_at, settle_once}
use spotjam.Server.RoomState.Core.{RoomState}
use spotjam.Server.RoomState.Ops.{advance, settle}
use spotjam.Server.RoomState.View.{build_session_queue}
use spotjam.Server.RoomState.Membership.{IsRoster}
use spotjam.Server.RoomState.Settle.{settle_of_IsSettled, settle_step}
use spotjam.Server.RoomState.Rotation.{advance-session_queue}

-- What a client takes the pointer to be: its snapshot, one step of the clock on.
abbrev pub predicted : RoomState → ℤ → PlaybackPointer
predicted s now = settle_once s.pointer (get_elem? (build_session_queue s) 0) now

-- For a room whose members and order hold the same keys, each once, with each member under its own
-- key, a client that settles the snapshot once, on the head of its session queue, has the pointer
-- that the server settles to, as long as the track it moved to has not run out as well.
pub settle_once-settle :
    (s : RoomState) (now : ℤ)
    → IsRoster s
    → ((end : ℤ) → ends_at (predicted s now) ≡ some end → now <ℤ end)
    → predicted s now ≡ (settle s now).pointer
unfolding settle_once
settle_once-settle s now r h = elim (Option-cases (ends_at s.pointer)) [
  | inl e ↦
      let still = settle_of_IsSettled s now (λ end k. absurd (cc)) in
      rw (predicted, settle_once, e, still)
  | inr (end, e) ↦ elim (Bool-cases (ltb_ℤ now end)) [
    | inl f ↦
        let still = settle_of_IsSettled s now (λ t k. ground arith) in
        rw (predicted, settle_once, e, f, still)
    | inr f ↦
        let head = advance-session_queue s end r in
        let on = settle_step s now end r e (ground arith) in
        let there =
          settle_of_IsSettled (advance s end) now
            (λ t k. h t (rw (predicted, settle_once, e, f, sym head) k)) in
        rw (predicted, settle_once, e, f, on, there, head)
  ]
]
