-- ===== src/Server/HandleOp/Others.antt =====
-- apps/server/src/handle-op.ts: what an op does to the members who did not send it.
use spotjam.Prelude.{
  ℕ, zero, suc, ℤ, ltb_ℤ, String, Bool, false, not, ◌||◌, ◌==◌, eq_iff, Option, none, some, is_none,
  Map, List, [], ◌∷◌, ◌++◌, append_assoc, arith, ◌≡◌, ◌≢◌, refl, subst, ◌∙◌, Option-cases,
  Bool-cases, inl, inr,
}
use spotjam.Prelude.Dict
use spotjam.Prelude.Dict.{get-put}
use spotjam.Protocol.Types.{QueueItem, SharedPlaylist}
use spotjam.Protocol.Pointer.{ends_at}
use spotjam.Protocol.Tracks.{is_empty}
use spotjam.Protocol.Value.{Value}
use spotjam.Protocol.Ops.{OpType}
use spotjam.Server.RoomState.Core.{
  Member, RoomState, with_member, settle_pointer, map_queue, broadcasters_with_tracks,
}
use spotjam.Server.RoomState.Ops
use spotjam.Server.RoomState.Ops.{
  set_broadcasting, set_public_playlists, advance, played, settle, settle_loop, settle_start,
  set_paused, seek,
}
use spotjam.Server.RoomState.Membership.{
  IsRoster, advance-IsRoster, settle-IsRoster, settle_pointer_keeps,
}
use spotjam.Server.RoomState.Turns.{Feeder, advance_cases}
use spotjam.Server.RoomState.Sound.{IsSound, settle-IsSound}
use spotjam.Server.HandleOp.Laws.{apply_op-IsSound}
use spotjam.Server.HandleOp.{OpContext, OpOutcome, with_read, apply_op, finish, handle_op}

-- `n` is `m`, less some tracks from the front of the queue.
pub record Fed (m n : Member) : Type 0 where
  pub taken : List QueueItem
  pub queue_is : m.queue ≡ taken ++ n.queue
  pub same : m ≡ record n { queue = m.queue }

Fed-refl : (m : Member) → Fed m m
Fed-refl m = record { taken = []; queue_is = refl; same = refl }

Fed-trans : {l m n : Member} → Fed l m → Fed m n → Fed l n
Fed-trans {l} {m} {n} a b = record {
  taken = a.taken ++ b.taken;
  queue_is = a.queue_is ∙ rw (b.queue_is, append_assoc a.taken b.taken n.queue);
  same = a.same ∙ rw b.same;
}

-- The member under a key is still there, fed from at most.
abbrev pub SparedIn : Map Member → Map Member → String → Type 0
SparedIn before after k =
    (m : Member) → Dict.get k before ≡ some m → (n : Member) × (Dict.get k after ≡ some n) × Fed m n

abbrev pub Spared : RoomState → RoomState → String → Type 0
Spared s t k = SparedIn s.members t.members k

Spared-refl : (ms : Map Member) (k : String) → SparedIn ms ms k
Spared-refl ms k m e = (m, e, Fed-refl m)

Spared-same : (ms ns : Map Member) (k : String) → Dict.get k ns ≡ Dict.get k ms → SparedIn ms ns k
Spared-same ms ns k h m e = (m, h ∙ e, Fed-refl m)

Spared-trans :
    (ms ns os : Map Member) (k : String) → SparedIn ms ns k → SparedIn ns os k → SparedIn ms os k
Spared-trans ms ns os k a b m e =
    let (n, f, p) = a m e in let (o, g, q) = b n f in (o, g, Fed-trans p q)

played-Spared :
    (s : RoomState) (now : ℤ) (f : Feeder s) (k : String)
    → Spared s (played s now f.member f.head f.rest) k
unfolding with_member
played-Spared s now f k m e = elim (Bool-cases (f.member.pubkey == k)) [
  | inl h ↦
      let same : f.member ≡ m = ground (arith, f.found, e, eq_iff f.member.pubkey k) in
      let fed : Member = record f.member { queue = f.rest } in
      (
        fed,
        ground (arith, get-put f.member.pubkey k fed s.members),
        subst (λ x. Fed x fed) same
            (record { taken = f.head ∷ []; queue_is = f.queue_is; same = refl }),
      )
  | inr h ↦ (
    m,
    ground (arith, get-put f.member.pubkey k (record f.member { queue = f.rest }) s.members),
    Fed-refl m,
  )
]

advance-Spared : (s : RoomState) (now : ℤ) (k : String) → IsRoster s → Spared s (advance s now) k
advance-Spared s now k r = elim (advance_cases s now r) [
  | inl (_, c) ↦ Spared-same s.members _ k (rw c)
  | inr (f, c) ↦ rw c (played-Spared s now f k)
]

settle_loop-Spared :
    (fuel : ℕ) (s : RoomState) (now : ℤ) (k : String)
    → IsRoster s
    → Spared s (settle_loop fuel s now) k
unfolding settle_loop
settle_loop-Spared zero s now k r = Spared-refl s.members k
settle_loop-Spared (suc fuel) s now k r = elim (Option-cases (ends_at s.pointer)) [
  | inl e ↦ rw (e, settle_loop) (Spared-refl s.members k)
  | inr (end, e) ↦
      let next = advance s end in
      let later =
        Spared-trans s.members next.members _ k (advance-Spared s end k r)
          (settle_loop-Spared fuel next now k (advance-IsRoster s end r)) in
      rw (e, settle_loop)
        (elim (Bool-cases (ltb_ℤ now end)) [
          | inl t ↦ rw t (Spared-refl s.members k)
          | inr t ↦ rw t later
        ])
]

settle-Spared : (s : RoomState) (now : ℤ) (k : String) → IsRoster s → Spared s (settle s now) k
unfolding settle
settle-Spared s now k r = settle_loop-Spared _ s now k r

settle_start-Spared :
    (s : RoomState) (now : ℤ) (k : String) → IsRoster s → Spared s (settle_start s now) k
unfolding settle_start
settle_start-Spared s now k r =
    elim (Bool-cases (not (is_none s.pointer.item_id) || is_empty (broadcasters_with_tracks s))) [
      | inl e ↦ rw (e, settle_start) (Spared-refl s.members k)
      | inr e ↦ rw (e, settle_start) (advance-Spared s now k r)
    ]

-- A record put under its own key is not seen under another.
put-Spared :
    (s : RoomState) (m : Member) (k : String)
    → (m.pubkey == k) ≡ false
    → Dict.get k (settle_pointer (with_member s m)).members ≡ Dict.get k s.members
unfolding with_member
put-Spared s m k ne =
    rw ((settle_pointer_keeps (with_member s m)).0, get-put m.pubkey k m s.members, ne)

module _ (s : RoomState) (pubkey k : String) (r : IsRoster s) (ne : pubkey ≢ k) where
  other : (m : Member) → Dict.get pubkey s.members ≡ some m → (m.pubkey == k) ≡ false
  other m e = ground (arith, r.keyed pubkey m e, eq_iff m.pubkey k)

  map_queue-Spared : (f : List QueueItem → List QueueItem) → Spared s (map_queue s pubkey f) k
  unfolding map_queue
  map_queue-Spared f = elim (Option-cases (Dict.get pubkey s.members)) [
    | inl e ↦ rw (e, map_queue) (Spared-refl s.members k)
    | inr (m, e) ↦
        rw (e, map_queue)
          (Spared-same s.members _ k (put-Spared s (record m { queue = f m.queue }) k (other m e)))
  ]

  set_broadcasting-Spared : (b : Bool) → Spared s (set_broadcasting s pubkey b) k
  unfolding set_broadcasting
  set_broadcasting-Spared b = elim (Option-cases (Dict.get pubkey s.members)) [
    | inl e ↦ rw (e, set_broadcasting) (Spared-refl s.members k)
    | inr (m, e) ↦
        rw (e, set_broadcasting)
          (Spared-same s.members _ k (put-Spared s (record m { broadcasting = b }) k (other m e)))
  ]

  set_public_playlists-Spared :
      (ps : List SharedPlaylist) → Spared s (set_public_playlists s pubkey ps) k
  unfolding set_public_playlists with_member
  set_public_playlists-Spared ps = elim (Option-cases (Dict.get pubkey s.members)) [
    | inl e ↦ rw (e, set_public_playlists) (Spared-refl s.members k)
    | inr (m, e) ↦
        rw (e, set_public_playlists)
          (Spared-same s.members _ k (rw (get-put m.pubkey k _ s.members, other m e)))
  ]

with_read-Spared {ℓ} :
    {A : Type ℓ} (s : RoomState) (k : String) (o : Option A) (f : A → RoomState)
    → ((a : A) → Spared s (f a) k)
    → Spared s (with_read s o f).state k
with_read-Spared s k none f h = Spared-refl s.members k
with_read-Spared s k (some a) f h = h a

apply_op-Spared :
    (s : RoomState) (pubkey k : String) (type : OpType) (op : Value) (ctx : OpContext)
    → IsRoster s
    → pubkey ≢ k
    → Spared s (apply_op s pubkey type op ctx).state k
unfolding apply_op Ops.enqueue Ops.remove Ops.move_many Ops.send_to_top Ops.shuffle Ops.clear_queue
    set_paused seek
apply_op-Spared s pubkey k OpType.join_room op ctx r ne = Spared-refl s.members k
apply_op-Spared s pubkey k OpType.leave_room op ctx r ne = Spared-refl s.members k
apply_op-Spared s pubkey k OpType.set_broadcasting op ctx r ne =
    with_read-Spared s k _ _ (set_broadcasting-Spared s pubkey k r ne)
apply_op-Spared s pubkey k OpType.enqueue op ctx r ne =
    with_read-Spared s k _ _ (λ items. map_queue-Spared s pubkey k r ne _)
apply_op-Spared s pubkey k OpType.remove op ctx r ne =
    with_read-Spared s k _ _ (λ id. map_queue-Spared s pubkey k r ne _)
apply_op-Spared s pubkey k OpType.move_many op ctx r ne =
    with_read-Spared s k _ _ (λ a. map_queue-Spared s pubkey k r ne _)
apply_op-Spared s pubkey k OpType.send_to_top op ctx r ne =
    with_read-Spared s k _ _ (λ id. map_queue-Spared s pubkey k r ne _)
apply_op-Spared s pubkey k OpType.shuffle op ctx r ne = map_queue-Spared s pubkey k r ne _
apply_op-Spared s pubkey k OpType.clear_queue op ctx r ne = map_queue-Spared s pubkey k r ne _
apply_op-Spared s pubkey k OpType.set_paused op ctx r ne =
    with_read-Spared s k _ _
      (λ paused. Spared-same s.members (set_paused s paused ctx.now).members k (ground arith))
apply_op-Spared s pubkey k OpType.seek op ctx r ne =
    with_read-Spared s k _ _
      (λ position. Spared-same s.members (seek s position ctx.now).members k (ground arith))
apply_op-Spared s pubkey k OpType.skip op ctx r ne = advance-Spared s ctx.now k r
apply_op-Spared s pubkey k OpType.set_public_playlists op ctx r ne =
    with_read-Spared s k _ _ (set_public_playlists-Spared s pubkey k r ne)
apply_op-Spared s pubkey k OpType.view_playlists op ctx r ne = Spared-refl s.members k

finish-Spared :
    (s : RoomState) (o : OpOutcome) (now : ℤ) (k : String)
    → IsRoster o.state
    → Spared s o.state k
    → Spared s (finish o now).state k
unfolding finish
finish-Spared s o now k r h = elim (Option-cases o.error) [
  | inl e ↦
      rw (e, finish)
        (Spared-trans s.members o.state.members _ k h (settle_start-Spared o.state now k r))
  | inr (c, e) ↦ rw (e, finish) h
]

-- In a sound room, an op leaves every member but its author in the room and as they were, but for
-- tracks gone from the front of their queue.
pub handle_op-Spared :
    (s : RoomState) (pubkey k : String) (type : OpType) (op : Value) (ctx : OpContext)
    → IsSound s
    → pubkey ≢ k
    → Spared s (handle_op s pubkey type op ctx).state k
unfolding handle_op
handle_op-Spared s pubkey k type op ctx v ne = elim (Bool-cases (Dict.has pubkey s.members)) [
  | inl e ↦
      let caught_up = settle s ctx.now in
      let r = settle-IsRoster s ctx.now v.roster in
      let o = apply_op caught_up pubkey type op ctx in
      let sound = apply_op-IsSound caught_up pubkey type op ctx (settle-IsSound v ctx.now) in
      rw (e, handle_op)
        (finish-Spared s o ctx.now k sound.roster (
          Spared-trans s.members caught_up.members o.state.members k
            (settle-Spared s ctx.now k v.roster)
            (apply_op-Spared caught_up pubkey k type op ctx r ne)))
  | inr e ↦ rw (e, handle_op) (Spared-refl s.members k)
]
