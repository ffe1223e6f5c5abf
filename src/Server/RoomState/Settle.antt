-- ===== src/Server/RoomState/Settle.antt =====
-- apps/server/src/room-state.ts: where `settle` ends, step by step.
use spotjam.Prelude.{
  ℕ, zero, suc, ◌+◌, ◌<◌, ℤ, ltb_ℤ, ◌<ℤ◌, ◌≤ℤ◌, String, false, some, [], ◌∷◌, length, Map, arith,
  ◌≡◌, refl, ap, ◌⊎◌, sym, ◌∙◌, Option-cases, Bool-cases, inl, inr,
}
use spotjam.Prelude.Dict
use spotjam.Protocol.Pointer.{ends_at}
use spotjam.Server.RoomState.Core.{Member, RoomState, with_member}
use spotjam.Server.RoomState.Ops.{advance, played, cleared, settle, settle_loop, track_count}
use spotjam.Server.RoomState.Membership.{IsRoster, advance-IsRoster}
use spotjam.Server.RoomState.Turns.{Feeder, advance_cases}

-- No track of the room has run out at `now`.
abbrev pub IsSettled : RoomState → ℤ → Type 0
IsSettled s now = (end : ℤ) → ends_at s.pointer ≡ some end → now <ℤ end

track_count-put :
    (k : String) (m n : Member) (members : Map Member)
    → Dict.get k members ≡ some m
    → track_count (Dict.put k n members) + length m.queue ≡ track_count members + length n.queue
unfolding track_count Dict.get Dict.put
track_count-put k m n [] e = absurd (ground arith)
track_count-put k m n ((j, x) ∷ rest) e = ground (arith, track_count-put k m n rest)

-- Playing a track takes it from the queues.
pub track_count-played :
    (s : RoomState) (now : ℤ) (f : Feeder s)
    → suc (track_count (played s now f.member f.head f.rest).members) ≡ track_count s.members
unfolding with_member
track_count-played s now f = ground (
  arith,
  track_count-put f.member.pubkey f.member (record f.member { queue = f.rest }) s.members f.found,
  f.queue_is,
)

settle_loop-cleared : (f : ℕ) (s : RoomState) (now : ℤ) → settle_loop f (cleared s) now ≡ cleared s
unfolding settle_loop ends_at
settle_loop-cleared zero s now = refl
settle_loop-cleared (suc f) s now = refl

-- One round of the loop, the test passed.
settle_loop_step :
    (f : ℕ) (s : RoomState) (now end : ℤ)
    → ends_at s.pointer ≡ some end
    → ltb_ℤ now end ≡ false
    → settle_loop (suc f) s now ≡ settle_loop f (advance s end) now
unfolding settle_loop
settle_loop_step f s now end e t = ground arith

-- The loop stops at once where no track has run out.
settle_loop-IsSettled :
    (f : ℕ) (s : RoomState) (now : ℤ) → IsSettled s now → settle_loop f s now ≡ s
unfolding settle_loop
settle_loop-IsSettled zero s now h = refl
settle_loop-IsSettled (suc f) s now h = elim (Option-cases (ends_at s.pointer)) [
  | inl e ↦ rw (e, settle_loop)
  | inr (end, e) ↦ ground (arith, e, h end e)
]

-- Whether a track has run out.
due :
    (s : RoomState) (now : ℤ)
    → IsSettled s now ⊎ ((end : ℤ) × (ends_at s.pointer ≡ some end) × (ltb_ℤ now end ≡ false))
due s now = elim (Option-cases (ends_at s.pointer)) [
  | inl e ↦ inl (λ end h. cc)
  | inr (end, e) ↦ elim (Bool-cases (ltb_ℤ now end)) [
    | inl t ↦ inl (λ x h. ground (arith))
    | inr t ↦ inr (end, e, t)
  ]
]

cleared-IsSettled : (s : RoomState) (now : ℤ) → IsSettled (cleared s) now
unfolding ends_at
cleared-IsSettled s now x p = absurd (cc)

-- With a round more than there are tracks the loop ends by its test.
enough :
    (f : ℕ) (s : RoomState) (now : ℤ)
    → IsRoster s
    → suc (track_count s.members) < f
    → IsSettled (settle_loop f s now) now
enough zero s now r h = absurd (omega arith)
enough (suc f) s now r h = elim (due s now) [
  | inl d ↦ rw (settle_loop-IsSettled (suc f) s now d) d
  | inr (end, e, t) ↦ rw (settle_loop_step f s now end e t) (elim (advance_cases s end r) [
    | inl (_, c) ↦ rw (c, settle_loop-cleared f s now) (cleared-IsSettled s now)
    | inr (p, c) ↦
        enough f (advance s end) now (advance-IsRoster s end r) (
          omega
            (arith, track_count-played s end p, ap (λ (t : RoomState). track_count t.members) c))
  ])
]

-- More fuel changes nothing.
same_fuel :
    (f g : ℕ) (s : RoomState) (now : ℤ)
    → IsRoster s
    → suc (track_count s.members) < f
    → suc (track_count s.members) < g
    → settle_loop f s now ≡ settle_loop g s now
same_fuel zero g s now r h k = absurd (omega arith)
same_fuel (suc f) zero s now r h k = absurd (omega arith)
same_fuel (suc f) (suc g) s now r h k = elim (due s now) [
  | inl d ↦ settle_loop-IsSettled (suc f) s now d ∙ sym (settle_loop-IsSettled (suc g) s now d)
  | inr (end, e, t) ↦
      rw (settle_loop_step f s now end e t, settle_loop_step g s now end e t)
        (elim (advance_cases s end r) [
          | inl (_, c) ↦ rw c (settle_loop-cleared f s now ∙ sym (settle_loop-cleared g s now))
          | inr (p, c) ↦
              let fewer = track_count-played s end p in
              let same = ap (λ (t : RoomState). track_count t.members) c in
              same_fuel f g (advance s end) now (advance-IsRoster s end r) (omega arith)
                (omega arith)
        ])
]

-- For a room whose members and order hold the same keys, each once, with each member under its own
-- key, settle ends, within its fuel, at a room whose track has not run out at that instant,
-- whatever the queues hold and however late it is.
pub settle-IsSettled : (s : RoomState) (now : ℤ) → IsRoster s → IsSettled (settle s now) now
unfolding settle
settle-IsSettled s now r = enough (suc (suc (track_count s.members))) s now r (omega arith)

-- Nothing happens to a room where no track has run out.
pub settle_of_IsSettled : (s : RoomState) (now : ℤ) → IsSettled s now → settle s now ≡ s
unfolding settle
settle_of_IsSettled s now h = settle_loop-IsSettled (suc (suc (track_count s.members))) s now h

-- Otherwise the room advances at the instant the track ran out, and settles from there.
pub settle_step :
    (s : RoomState) (now end : ℤ)
    → IsRoster s
    → ends_at s.pointer ≡ some end
    → end ≤ℤ now
    → settle s now ≡ settle (advance s end) now
unfolding settle
settle_step s now end r e h =
    settle_loop_step (suc (track_count s.members)) s now end e (ground arith)
    ∙ elim (advance_cases s end r) [
      | inl (_, c) ↦ rw c (settle_loop-cleared _ s now ∙ sym (settle_loop-cleared _ s now))
      | inr (p, c) ↦
          let fewer = track_count-played s end p in
          let same = ap (λ (t : RoomState). track_count t.members) c in
          same_fuel _ _ (advance s end) now (advance-IsRoster s end r) (omega arith) (omega arith)
    ]

settle_twice_below :
    (n : ℕ) (s : RoomState) (t₁ t₂ : ℤ)
    → IsRoster s
    → suc (track_count s.members) < n
    → t₁ ≤ℤ t₂
    → settle (settle s t₁) t₂ ≡ settle s t₂
settle_twice_below zero s t₁ t₂ r b h = absurd (omega arith)
settle_twice_below (suc n) s t₁ t₂ r b h = elim (due s t₁) [
  | inl d ↦ rw (settle_of_IsSettled s t₁ d)
  | inr (end, e, t) ↦
      rw (settle_step s t₁ end r e (ground arith), settle_step s t₂ end r e (ground arith))
        (elim (advance_cases s end r) [
          | inl (_, c) ↦ rw (c, settle_of_IsSettled (cleared s) t₁ (cleared-IsSettled s t₁))
          | inr (p, c) ↦
              let fewer = track_count-played s end p in
              let same = ap (λ (t : RoomState). track_count t.members) c in
              settle_twice_below n (advance s end) t₁ t₂ (advance-IsRoster s end r) (omega arith) h
        ])
]

-- For a room whose members and order hold the same keys, each once, with each member under its own
-- key, settling at an earlier instant and then at a later one gives what settling at the later one
-- gives: looking at a room on the way changes nothing.
pub settle-settle :
    (s : RoomState) (t₁ t₂ : ℤ) → IsRoster s → t₁ ≤ℤ t₂ → settle (settle s t₁) t₂ ≡ settle s t₂
settle-settle s t₁ t₂ r h =
    settle_twice_below (suc (suc (suc (track_count s.members)))) s t₁ t₂ r (omega arith) h
