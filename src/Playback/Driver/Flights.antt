-- ===== src/Playback/Driver/Flights.antt =====
-- apps/desktop/src/lib/playback/driver.ts: what is in flight, over every event.
use spotjam.Prelude.{
  if◌then◌else◌, ℕ, ◌+◌, ◌≤◌, eqb, ℤ, String, Bool, true, false, not, ◌&&◌, ◌||◌, Option, none,
  some, List, [], ◌∷◌, ◌++◌, append-nil, append_assoc, arith, ◌≡◌, refl, Bool-cases, inl, inr, ◌⊎◌,
}
use spotjam.Playback.Observation.{Observation, ObserveResult, observation_from}
use spotjam.Playback.Commands.{Command}
use spotjam.Playback.Expectations.{Expectation, expectation_for, rollover_for, prune}
use spotjam.Playback.Stuck.{fresh_stuck, drop_stuck, is_stuck}
use spotjam.Playback.Mode.{is_ready, user_took_player, attach}
use spotjam.Playback.Desired.{desired_at}
use spotjam.Playback.Reconcile.{reconcile}
use spotjam.Playback.Pending.{reconcile-NoneAwaited}
use spotjam.Playback.Classify.{Verdict, ok, user, classify}
use spotjam.Playback.Driver.{
  Flight, at_rest, reading, sending, Driver, Scene, forget, run_tick, tick, end_tick, keep_reading,
  next_command, may_send, watch_for_rollover, commands_of, judge_targets, needs_no_rollover,
  publish_stuck, meet_item, close_gap, drive, take_in, take_reading, read, observed, after_send,
  answered, attach_player, stop, detach_player, start, bridge_change, poke, set_mode, new_driver,
  is_attached, is_ticking,
}
use spotjam.Playback.Driver.Steps.{
  Event, reading_came, command_answered, attach_asked, detach_asked, started, stop_asked,
  bridge_changed, poked, step, run,
}
use spotjam.Playback.Driver.Apart.{
  Apart, Apart-left, Apart-without, Apart-append, Apart-keep_if, Free-keep_if, Free-awaited,
  commands_of-append, kept-Apart, reconcile-Apart,
}

-- The commands that the tick in flight still stands for: the one that it awaits, and those to go.
-- A tick of an earlier generation stands for none.
abbrev pub under_way : Flight → ℕ → List Command
under_way (sending g obs c rest) generation = if eqb g generation then c ∷ rest else []
under_way f generation = []

abbrev pub born : Flight → ℕ
born at_rest = 0
born (reading g) = g
born (sending g obs c rest) = g

-- No two commands that ask for the same are outstanding or under way, and no tick is of a generation
-- to come.
pub record IsOrderly (d : Driver) : Type 0 where
  pub apart : Apart (commands_of d.outstanding ++ under_way d.flight d.generation)
  pub past : born d.flight ≤ d.generation

pub new_driver-IsOrderly : IsOrderly new_driver
unfolding commands_of
new_driver-IsOrderly = record { apart = tt; past = omega arith }

abbrev Settled : Driver → Type 0
Settled d = Apart (commands_of d.outstanding)

outstanding_apart : (d : Driver) → IsOrderly d → Settled d
outstanding_apart d v = Apart-left (commands_of d.outstanding) _ v.apart

run_tick-IsOrderly : (d : Driver) → Settled d → IsOrderly (run_tick d)
unfolding run_tick forget commands_of
run_tick-IsOrderly d a = elim (Bool-cases (is_ready d.bridge)) [
  | inl e ↦ rw (run_tick, e) (record { apart = rw append-nil a; past = omega arith })
  | inr e ↦ elim (Bool-cases (d.dirty && not d.stopped)) [
    | inl f ↦ rw (run_tick, e, f) (record { apart = tt; past = omega arith })
    | inr f ↦ rw (run_tick, e, f) (record { apart = tt; past = omega arith })
  ]
]

end_tick-IsOrderly : (d : Driver) → Settled d → IsOrderly (end_tick d)
unfolding end_tick
end_tick-IsOrderly d a = elim (Bool-cases (d.dirty && not d.stopped)) [
  | inl e ↦ rw (end_tick, e) (run_tick-IsOrderly (record d { flight = at_rest; dirty = false }) a)
  | inr e ↦ rw (end_tick, e) (record { apart = rw append-nil a; past = omega arith })
]

keep_reading-IsOrderly :
    (d : Driver) (g : ℕ) (obs : Observation) → Settled d → IsOrderly (keep_reading d g obs)
unfolding keep_reading
keep_reading-IsOrderly d g obs a = elim (Bool-cases (eqb g d.generation)) [
  | inl e ↦ rw (keep_reading, e) (end_tick-IsOrderly (record d { prev = some obs }) a)
  | inr e ↦ rw (keep_reading, e) (end_tick-IsOrderly d a)
]

next_command-IsOrderly :
    (d : Driver) (g : ℕ) (obs : Observation) (cs : List Command)
    → Apart (commands_of d.outstanding ++ cs)
    → IsOrderly (next_command d g obs cs)
unfolding next_command
next_command-IsOrderly d g obs [] a =
    keep_reading-IsOrderly d g obs (Apart-left (commands_of d.outstanding) [] a)
next_command-IsOrderly d g obs (c ∷ rest) a = elim (Bool-cases (may_send d g)) [
  | inl e ↦
      let current : eqb g d.generation ≡ true = ground arith in
      rw (next_command, e) (record { apart = rw current a; past = ground arith })
  | inr e ↦
      rw (next_command, e)
        (keep_reading-IsOrderly d g obs (Apart-left (commands_of d.outstanding) (c ∷ rest) a))
]

next_command_stale :
    (d : Driver) (g : ℕ) (obs : Observation) (cs : List Command)
    → eqb g d.generation ≡ false
    → Settled d
    → IsOrderly (next_command d g obs cs)
unfolding next_command
next_command_stale d g obs [] old a = keep_reading-IsOrderly d g obs a
next_command_stale d g obs (c ∷ rest) old a =
    let stays : may_send d g ≡ false = ground arith in
    rw (next_command, stays) (keep_reading-IsOrderly d g obs a)

sent_apart :
    (list : List Expectation) (c : Command) (now : ℤ)
    → commands_of (list ++ expectation_for c now ∷ []) ≡ commands_of list ++ c ∷ []
unfolding expectation_for commands_of
sent_apart list c now = commands_of-append list (expectation_for c now ∷ [])

tick-IsOrderly : (d : Driver) → IsOrderly d → IsOrderly (tick d)
unfolding tick
tick-IsOrderly d v = elim (Bool-cases (is_ticking d.flight)) [
  | inl e ↦ rw (tick, e) (record { apart = v.apart; past = v.past })
  | inr e ↦ rw (tick, e) (run_tick-IsOrderly d (outstanding_apart d v))
]

under_way_later : (f : Flight) (n : ℕ) → born f ≤ n → under_way f (n + 1) ≡ []
under_way_later at_rest n h = refl
under_way_later (reading g) n h = refl
under_way_later (sending g obs c rest) n h = ground arith

-- A tick that is in flight when everything is forgotten stands for nothing from then on.
forget-IsOrderly : (d : Driver) → IsOrderly d → IsOrderly (forget d)
unfolding forget commands_of
forget-IsOrderly d v = record {
  apart = rw (under_way_later d.flight d.generation v.past) tt;
  past = omega (arith, v.past);
}

rollover_apart :
    (list : List Expectation) (obs : Observation) (now : ℤ)
    → commands_of (list ++ rollover_for obs now ∷ []) ≡ commands_of list
unfolding rollover_for commands_of
rollover_apart list obs now =
    rw (commands_of-append list (rollover_for obs now ∷ [])) (rw append-nil refl)

watch_for_rollover_keeps :
    (d : Driver) (obs : Observation) (now : ℤ)
    → commands_of (watch_for_rollover d obs now).outstanding ≡ commands_of d.outstanding
unfolding watch_for_rollover
watch_for_rollover_keeps d obs now = elim (Bool-cases (needs_no_rollover d obs)) [
  | inl e ↦ rw (watch_for_rollover, e)
  | inr e ↦ rw (watch_for_rollover, e) (rollover_apart d.outstanding obs now)
]

if_IsOrderly :
    {d d' : Driver} (b : Bool) → IsOrderly d → IsOrderly d' → IsOrderly (if b then d else d')
if_IsOrderly true v w = v
if_IsOrderly false v w = w

module _ (sort : List String → List String) where
  close_gap-IsOrderly :
      (d : Driver) (g : ℕ) (obs : Observation) (scene : Scene)
      → Settled d
      → IsOrderly (close_gap sort d g obs scene)
  unfolding close_gap drop_stuck
  close_gap-IsOrderly d g obs scene a =
      let met = meet_item sort d scene.pointer.item_id scene.now in
      let kept : met.outstanding ≡ d.outstanding = met_keeps d scene in
      let desired = desired_at scene.pointer scene.session_queue scene.server_now in
      let wanted = reconcile desired obs met.outstanding met.stuck scene.now in
      let lively = λ (c : Command). not (is_stuck met.stuck c scene.now) in
      next_command-IsOrderly met g obs (drop_stuck met.stuck wanted scene.now) (
        Apart-append (commands_of met.outstanding) (drop_stuck met.stuck wanted scene.now)
          (rw kept a)
          (Apart-keep_if lively wanted
            (reconcile-Apart desired obs met.outstanding met.stuck scene.now))
          (Free-keep_if lively (commands_of met.outstanding) wanted (
            Free-awaited met.outstanding wanted
              (reconcile-NoneAwaited desired obs met.outstanding met.stuck scene.now))))
    where
      met_keeps :
          (d : Driver) (scene : Scene)
          → (meet_item sort d scene.pointer.item_id scene.now).outstanding ≡ d.outstanding
      met_keeps d scene = unfold meet_item publish_stuck in ground arith

  drive-IsOrderly :
      (d : Driver) (g : ℕ) (obs : Observation) (explaining : List Expectation) (scene : Scene)
      → Settled d
      → IsOrderly (drive sort d g obs explaining scene)
  unfolding drive set_mode commands_of
  drive-IsOrderly d g obs explaining scene a =
      elim (verdict_cases (classify d.prev obs explaining)) [
        | inl e ↦ rw (drive, e) (close_gap-IsOrderly d g obs scene a)
        | inr e ↦
            rw (drive, e)
              (keep_reading-IsOrderly (set_mode (record d { outstanding = [] }) user_took_player) g
                obs tt)
      ]
    where
      verdict_cases : (v : Verdict) → (v ≡ ok) ⊎ (v ≡ user)
      verdict_cases ok = inl refl
      verdict_cases user = inr refl

  take_in-IsOrderly :
      (d : Driver) (g : ℕ) (obs : Observation) (scene : Scene)
      → Settled d
      → IsOrderly (take_in sort d g obs scene)
  unfolding take_in publish_stuck
  take_in-IsOrderly d g obs scene a =
      let pruned = prune d.outstanding obs scene.now in
      let sorted = record d {
        outstanding = pruned.kept;
        stuck = judge_targets d.stuck pruned scene.now;
      } in
      let told = publish_stuck sort sorted scene.now in
      let apart = kept-Apart d.outstanding obs scene.now a in
      elim (Bool-cases (is_attached d.mode)) [
        | inl e ↦ rw (take_in, e) (drive-IsOrderly told g obs d.outstanding scene apart)
        | inr e ↦ rw (take_in, e) (keep_reading-IsOrderly told g obs apart)
      ]

  take_reading-IsOrderly :
      (d : Driver) (g : ℕ) (obs : Observation) (scene : Scene)
      → Settled d
      → IsOrderly (take_reading sort d g obs scene)
  unfolding take_reading
  take_reading-IsOrderly d g obs scene a = elim (Bool-cases (is_attached d.mode)) [
    | inl e ↦
        rw (take_reading, e)
          (take_in-IsOrderly (watch_for_rollover d obs scene.now) g obs scene
            (rw (watch_for_rollover_keeps d obs scene.now) a))
    | inr e ↦ rw (take_reading, e) (take_in-IsOrderly d g obs scene a)
  ]

  observed-IsOrderly :
      (d : Driver) (result : Option ObserveResult) (scene : Scene)
      → IsOrderly d
      → IsOrderly (observed sort d result scene)
  unfolding observed read
  observed-IsOrderly d result scene v = on_flight d.flight refl
    where
      on_read : (g : ℕ) (r : Option ObserveResult) → IsOrderly (read sort d g r scene)
      on_read g none = unfold read in end_tick-IsOrderly d (outstanding_apart d v)
      on_read g (some r) =
          let taken =
            take_reading-IsOrderly d g (observation_from r scene.now) scene
              (outstanding_apart d v) in
          elim (Bool-cases (d.stopped || not (eqb g d.generation))) [
            | inl e ↦ rw (read, e) (end_tick-IsOrderly d (outstanding_apart d v))
            | inr e ↦ rw (read, e) taken
          ]

      on_flight : (f : Flight) → d.flight ≡ f → IsOrderly (observed sort d result scene)
      on_flight at_rest e = rw (observed, e) v
      on_flight (reading g) e = rw (observed, e) (on_read g result)
      on_flight (sending g obs c rest) e = rw (observed, e) v

  answered-IsOrderly :
      (d : Driver) (reached : Bool) (now : ℤ)
      → IsOrderly d
      → IsOrderly (answered sort d reached now)
  unfolding answered after_send
  answered-IsOrderly d reached now v = on_flight d.flight refl
    where
      stale :
          (g : ℕ) (obs : Observation) (c : Command) (rest : List Command) (b : Bool)
          → eqb g d.generation ≡ false
          → IsOrderly (after_send sort d g obs c rest b now)
      stale g obs c rest false old = next_command_stale d g obs rest old (outstanding_apart d v)
      stale g obs c rest true old =
          let stays : may_send d g ≡ false = ground arith in
          rw (after_send, stays) (keep_reading-IsOrderly d g obs (outstanding_apart d v))

      live :
          (g : ℕ) (obs : Observation) (c : Command) (rest : List Command) (b : Bool)
          → Apart (commands_of d.outstanding ++ c ∷ rest)
          → IsOrderly (after_send sort d g obs c rest b now)
      live g obs c rest false a =
          next_command-IsOrderly d g obs rest (Apart-without (commands_of d.outstanding) c rest a)
      live g obs c rest true a = elim (Bool-cases (may_send d g)) [
        | inr f ↦ rw (after_send, f) (keep_reading-IsOrderly d g obs (outstanding_apart d v))
        | inl f ↦
            rw (after_send, f)
              (next_command-IsOrderly
                (record d { outstanding = d.outstanding ++ expectation_for c now ∷ [] }) g obs rest
                (rw (sent_apart d.outstanding c now, append_assoc) a))
      ]

      on_sent :
          (g : ℕ) (obs : Observation) (c : Command) (rest : List Command) (b : Bool)
          → d.flight ≡ sending g obs c rest
          → IsOrderly (after_send sort d g obs c rest b now)
      on_sent g obs c rest b e = elim (Bool-cases (eqb g d.generation)) [
        | inr old ↦ stale g obs c rest b old
        | inl current ↦ live g obs c rest b (rw (e, current) at v.apart)
      ]

      on_flight : (f : Flight) → d.flight ≡ f → IsOrderly (answered sort d reached now)
      on_flight at_rest e = rw (answered, e) v
      on_flight (reading g) e = rw (answered, e) v
      on_flight (sending g obs c rest) e = rw (answered, e) (on_sent g obs c rest reached e)

  -- The order of flights and generations is kept by every event.
  pub step-IsOrderly : (d : Driver) (e : Event) → IsOrderly d → IsOrderly (step sort d e)
  unfolding step attach_player detach_player start stop bridge_change poke publish_stuck set_mode
      forget
  step-IsOrderly d (reading_came result scene) v = observed-IsOrderly d result scene v
  step-IsOrderly d (command_answered reached now) v = answered-IsOrderly d reached now v
  step-IsOrderly d (attach_asked now) v =
      let w = forget-IsOrderly d v in
      let forgotten = record (forget d) { stuck = fresh_stuck } in
      tick-IsOrderly (set_mode (publish_stuck sort forgotten now) attach)
        (record { apart = w.apart; past = w.past })
  step-IsOrderly d detach_asked v =
      let w = forget-IsOrderly d v in record { apart = w.apart; past = w.past }
  step-IsOrderly d started v =
      if_IsOrderly d.stopped
        (tick-IsOrderly (record d { stopped = false }) (record { apart = v.apart; past = v.past }))
        v
  step-IsOrderly d (stop_asked now) v =
      let w = forget-IsOrderly d v in record { apart = w.apart; past = w.past }
  step-IsOrderly d (bridge_changed state) v =
      let heard = record d { bridge = some state } in
      let w : IsOrderly heard = record { apart = v.apart; past = v.past } in
      if_IsOrderly d.stopped v
        (if_IsOrderly (is_ready (some state) && not (is_ready d.bridge)) (tick-IsOrderly heard w) w)
  step-IsOrderly d poked v = if_IsOrderly d.stopped v (tick-IsOrderly d v)

  run-IsOrderly : (d : Driver) (events : List Event) → IsOrderly d → IsOrderly (run sort d events)
  run-IsOrderly d [] v = v
  run-IsOrderly d (e ∷ events) v = run-IsOrderly (step sort d e) events (step-IsOrderly d e v)

  -- Whatever happens to a driver from its start on, in whatever order, the commands whose effect
  -- it awaits and those of the tick under way never ask for the same thing twice.
  pub run-Apart :
      (events : List Event)
      → Apart (
          commands_of (run sort new_driver events).outstanding
          ++ under_way (run sort new_driver events).flight (run sort new_driver events).generation)
  run-Apart events = (run-IsOrderly new_driver events new_driver-IsOrderly).apart
