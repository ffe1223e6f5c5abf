-- ===== src/Server/World/Timers.antt =====
-- apps/server/src/room-clock.ts: which timer stands after a change was told of.
use spotjam.Prelude.{
  ℤ, pos, ◌+ℤ◌, ◌-ℤ◌, max_ℤ, +ℤ_parts, -ℤ_parts, eq_of_parts, String, ◌==◌, if◌then◌else◌, Option,
  none, some, arith, ◌≡◌, ◌∙◌, ap, Option-cases, inl, inr,
}
use spotjam.Prelude.Dict
use spotjam.Prelude.Dict.{get-put, get-delete}
use spotjam.Protocol.Pointer.{ends_at}
use spotjam.Server.RoomState.Core.{RoomState}
use spotjam.Server.World.{World, arm, publish}
use spotjam.Server.World.Laws.{publish-IsTold}

-- The instant at which a room at `now` wants to be woken: the end of its track, or at once where
-- that has passed.
abbrev pub wake_up : Option RoomState → ℤ → Option ℤ
wake_up none now = none
wake_up (some s) now = elim (ends_at s.pointer) [ none ↦ none | some end ↦ some (max_ℤ now end) ]

delay : (now end : ℤ) → now +ℤ max_ℤ (pos 0) (end -ℤ now) ≡ max_ℤ now end
delay now end =
    eq_of_parts _ _ (ground (arith, +ℤ_parts now (max_ℤ (pos 0) (end -ℤ now)), -ℤ_parts end now))

arm-pending :
    (w : World) (room_id k : String) (now : ℤ)
    → Dict.get k (arm w room_id now).pending
      ≡ (if room_id == k then wake_up (Dict.get room_id w.rooms) now else Dict.get k w.pending)
unfolding arm
arm-pending w room_id k now = elim (Option-cases (Dict.get room_id w.rooms)) [
  | inl e ↦ rw (arm, e) (get-delete room_id k w.pending)
  | inr (s, e) ↦ elim (Option-cases (ends_at s.pointer)) [
    | inl f ↦ rw (arm, wake_up, e, f) (get-delete room_id k w.pending)
    | inr (end, f) ↦
        rw (arm, wake_up, e, f, delay now end)
          (ground (
            arith,
            get-put room_id k (max_ℤ now end) (Dict.delete room_id w.pending),
            get-delete room_id k w.pending,
          ))
  ]
]

-- After a change to a room is told of, the timer of that room stands where its track ends, or at
-- the present instant where that has passed, and there is none where no track runs or the room is
-- gone; the timers of the other rooms are as they were.
pub publish-pending :
    (w : World) (room_id k : String) (now : ℤ)
    → Dict.get k (publish w room_id now).pending
      ≡ (if room_id == k then wake_up (Dict.get room_id w.rooms) now else Dict.get k w.pending)
publish-pending w room_id k now =
    ap (Dict.get k) (publish-IsTold w room_id now).pending ∙ arm-pending w room_id k now
