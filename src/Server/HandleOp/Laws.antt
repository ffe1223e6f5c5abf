-- ===== src/Server/HandleOp/Laws.antt =====
-- apps/server/src/handle-op.ts: what holds of a room after any op.
use spotjam.Prelude.{
  ℤ, String, true, false, not, ◌||◌, Option, none, some, is_none, List, [], ◌∷◌, arith, ◌≡◌, refl,
  ◌⊎◌, Option-cases, Bool-cases, inl, inr,
}
use spotjam.Prelude.Dict
use spotjam.Protocol.Value.{Value}
use spotjam.Protocol.Ops.{OpType, ErrorCode, not_in_room, malformed}
use spotjam.Protocol.Tracks.{is_empty}
use spotjam.Server.RoomState.Core.{RoomState, broadcasters_with_tracks, members_in_order}
use spotjam.Server.RoomState.Ops.{settle, settle_start, advance}
use spotjam.Server.RoomState.Membership.{IsRoster}
use spotjam.Server.RoomState.Turns.{advance_cases}
use spotjam.Server.RoomState.Sound
use spotjam.Server.RoomState.Sound.{IsSound, settle-IsSound, settle_start-IsSound}
use spotjam.Server.HandleOp.{OpContext, OpOutcome, with_read, apply_op, finish, handle_op}

with_read-IsSound {ℓ} :
    {A : Type ℓ} (s : RoomState) (o : Option A) (f : A → RoomState)
    → IsSound s
    → ((a : A) → IsSound (f a))
    → IsSound (with_read s o f).state
with_read-IsSound s none f v h = v
with_read-IsSound s (some a) f v h = h a

pub apply_op-IsSound :
    (s : RoomState) (pubkey : String) (type : OpType) (op : Value) (ctx : OpContext)
    → IsSound s
    → IsSound (apply_op s pubkey type op ctx).state
unfolding apply_op
apply_op-IsSound s pubkey OpType.join_room op ctx v = v
apply_op-IsSound s pubkey OpType.leave_room op ctx v = v
apply_op-IsSound s pubkey OpType.set_broadcasting op ctx v =
    with_read-IsSound s _ _ v (λ b. Sound.set_broadcasting-IsSound v pubkey b)
apply_op-IsSound s pubkey OpType.enqueue op ctx v =
    with_read-IsSound s _ _ v (λ items. Sound.enqueue-IsSound v pubkey items)
apply_op-IsSound s pubkey OpType.remove op ctx v =
    with_read-IsSound s _ _ v (λ id. Sound.remove-IsSound v pubkey id)
apply_op-IsSound s pubkey OpType.move_many op ctx v =
    with_read-IsSound s _ _ v (λ a. Sound.move_many-IsSound v pubkey a.0 a.1)
apply_op-IsSound s pubkey OpType.send_to_top op ctx v =
    with_read-IsSound s _ _ v (λ id. Sound.send_to_top-IsSound v pubkey id)
apply_op-IsSound s pubkey OpType.shuffle op ctx v = Sound.shuffle-IsSound v pubkey ctx.rng
apply_op-IsSound s pubkey OpType.clear_queue op ctx v = Sound.clear_queue-IsSound v pubkey
apply_op-IsSound s pubkey OpType.set_paused op ctx v =
    with_read-IsSound s _ _ v (λ paused. Sound.set_paused-IsSound v paused ctx.now)
apply_op-IsSound s pubkey OpType.seek op ctx v =
    with_read-IsSound s _ _ v (λ position. Sound.seek-IsSound v position ctx.now)
apply_op-IsSound s pubkey OpType.skip op ctx v = Sound.advance-IsSound v ctx.now
apply_op-IsSound s pubkey OpType.set_public_playlists op ctx v =
    with_read-IsSound s _ _ v (λ ps. Sound.set_public_playlists-IsSound v pubkey ps)
apply_op-IsSound s pubkey OpType.view_playlists op ctx v = v

finish-IsSound : (o : OpOutcome) (now : ℤ) → IsSound o.state → IsSound (finish o now).state
unfolding finish
finish-IsSound o now v = elim (Option-cases o.error) [
  | inl e ↦ rw (e, finish) (settle_start-IsSound v now)
  | inr (c, e) ↦ rw (e, finish) v
]

-- Whatever the op, its fields and its author, accepted or refused, handleOp keeps a sound room
-- sound: members and order hold the same keys, each once, and each member stands under its own
-- key; a pointer at a track means that somebody broadcasts; and no queue holds a track twice.
pub handle_op-IsSound :
    (s : RoomState) (pubkey : String) (type : OpType) (op : Value) (ctx : OpContext)
    → IsSound s
    → IsSound (handle_op s pubkey type op ctx).state
unfolding handle_op
handle_op-IsSound s pubkey type op ctx v = elim (Bool-cases (Dict.has pubkey s.members)) [
  | inl e ↦
      rw (e, handle_op)
        (finish-IsSound _ ctx.now
          (apply_op-IsSound _ pubkey type op ctx (settle-IsSound v ctx.now)))
  | inr e ↦ rw (e, handle_op) v
]

with_read_error {ℓ} :
    {A : Type ℓ} (s : RoomState) (o : Option A) (f : A → RoomState) (c : ErrorCode)
    → (with_read s o f).error ≡ some c
    → ((with_read s o f).state ≡ s) × (c ≡ malformed)
with_read_error s none f c h = (refl, ground arith)
with_read_error s (some a) f c h = absurd (ground arith)

apply_op_error :
    (s : RoomState) (pubkey : String) (type : OpType) (op : Value) (ctx : OpContext) (c : ErrorCode)
    → (apply_op s pubkey type op ctx).error ≡ some c
    → ((apply_op s pubkey type op ctx).state ≡ s) × (c ≡ malformed)
unfolding apply_op
apply_op_error s pubkey OpType.set_broadcasting op ctx c h = with_read_error s _ _ c h
apply_op_error s pubkey OpType.enqueue op ctx c h = with_read_error s _ _ c h
apply_op_error s pubkey OpType.remove op ctx c h = with_read_error s _ _ c h
apply_op_error s pubkey OpType.move_many op ctx c h = with_read_error s _ _ c h
apply_op_error s pubkey OpType.send_to_top op ctx c h = with_read_error s _ _ c h
apply_op_error s pubkey OpType.set_paused op ctx c h = with_read_error s _ _ c h
apply_op_error s pubkey OpType.seek op ctx c h = with_read_error s _ _ c h
apply_op_error s pubkey OpType.set_public_playlists op ctx c h = with_read_error s _ _ c h
apply_op_error s pubkey _ op ctx c h = absurd (ground arith)

-- A refused op has done nothing: it came from outside the room, was answered not-in-room, and left
-- the room as it was; or it came from a member, was malformed, and left the room settled and
-- otherwise as it was.
pub handle_op_refused :
    (s : RoomState) (pubkey : String) (type : OpType) (op : Value) (ctx : OpContext) (c : ErrorCode)
    → (handle_op s pubkey type op ctx).error ≡ some c
    → ((Dict.has pubkey s.members ≡ false)
        × (c ≡ not_in_room)
        × ((handle_op s pubkey type op ctx).state ≡ s))
      ⊎ ((Dict.has pubkey s.members ≡ true)
          × (c ≡ malformed)
          × ((handle_op s pubkey type op ctx).state ≡ settle s ctx.now))
unfolding handle_op finish
handle_op_refused s pubkey type op ctx c h = elim (Bool-cases (Dict.has pubkey s.members)) [
  | inl e ↦
      let o = apply_op (settle s ctx.now) pubkey type op ctx in
      inr (elim (Option-cases o.error) [
        | inl f ↦ absurd (ground arith)
        | inr (d, f) ↦
            let (same, code) = apply_op_error (settle s ctx.now) pubkey type op ctx d f in
            (e, ground arith, ground arith)
      ])
  | inr e ↦ inl (e, ground arith, ground arith)
]

of_is_empty {ℓ} : {A : Type ℓ} (xs : List A) → is_empty xs ≡ true → xs ≡ []
of_is_empty [] h = refl
of_is_empty (x ∷ xs) h = absurd (ground arith)

settle_start_idle :
    (s : RoomState) (now : ℤ)
    → IsRoster s
    → is_none (settle_start s now).pointer.item_id ≡ true
    → broadcasters_with_tracks (settle_start s now) ≡ []
unfolding settle_start broadcasters_with_tracks members_in_order
settle_start_idle s now r h =
    elim (Bool-cases (not (is_none s.pointer.item_id) || is_empty (broadcasters_with_tracks s))) [
      | inl e ↦ rw (e, settle_start) (of_is_empty (broadcasters_with_tracks s) (ground arith))
      | inr e ↦ elim (advance_cases s now r) [
        | inl (none_feeds, c) ↦ rw (e, settle_start, c) none_feeds
        | inr (f, c) ↦
            let playing : is_none (advance s now).pointer.item_id ≡ false = rw c in
            absurd (ground arith)
      ]
    ]

handle_op_silent :
    (s : RoomState) (pubkey : String) (type : OpType) (op : Value) (ctx : OpContext)
    → IsSound s
    → (handle_op s pubkey type op ctx).error ≡ none
    → is_none (handle_op s pubkey type op ctx).state.pointer.item_id ≡ true
    → broadcasters_with_tracks (handle_op s pubkey type op ctx).state ≡ []
unfolding handle_op finish
handle_op_silent s pubkey type op ctx v accepted silent =
    elim (Bool-cases (Dict.has pubkey s.members)) [
      | inl e ↦
          let o = apply_op (settle s ctx.now) pubkey type op ctx in
          let sound = apply_op-IsSound _ pubkey type op ctx (settle-IsSound v ctx.now) in
          elim (Option-cases o.error) [
            | inl f ↦
                rw (e, handle_op, finish, f)
                  (settle_start_idle o.state ctx.now sound.roster (ground arith))
            | inr (d, f) ↦ absurd (ground arith)
          ]
      | inr e ↦ absurd (ground arith)
    ]

-- In a sound room, after an accepted op the room has a track on, playing or paused, if a
-- broadcaster has one queued.
pub handle_op_not_idle :
    (s : RoomState) (pubkey : String) (type : OpType) (op : Value) (ctx : OpContext)
    → IsSound s
    → (handle_op s pubkey type op ctx).error ≡ none
    → is_empty (broadcasters_with_tracks (handle_op s pubkey type op ctx).state) ≡ false
    → is_none (handle_op s pubkey type op ctx).state.pointer.item_id ≡ false
handle_op_not_idle s pubkey type op ctx v accepted feeds =
    elim (Bool-cases (is_none (handle_op s pubkey type op ctx).state.pointer.item_id)) [
      | inl silent ↦
          let nobody = handle_op_silent s pubkey type op ctx v accepted silent in
          absurd (ground (arith, nobody))
      | inr e ↦ e
    ]
