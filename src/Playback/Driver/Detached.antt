-- ===== src/Playback/Driver/Detached.antt =====
-- apps/desktop/src/lib/playback/driver.ts: a driver that somebody has detached.
use spotjam.Prelude.{
  ℕ, eqb, ℤ, String, Bool, true, false, not, ◌&&◌, ◌||◌, if◌then◌else◌, Option, none, some, List,
  [], ◌∷◌, arith, ◌≡◌, refl,
}
use spotjam.Playback.Observation.{Observation, ObserveResult, observation_from}
use spotjam.Playback.Commands.{Command}
use spotjam.Playback.Expectations.{prune}
use spotjam.Playback.Mode.{detached, is_ready}
use spotjam.Playback.Driver.{
  Flight, at_rest, reading, sending, Driver, Scene, forget, run_tick, tick, end_tick, keep_reading,
  next_command, may_send, take_in, take_reading, read, observed, after_send, answered,
  detach_player, stop, start, bridge_change, poke, set_mode, publish_stuck, is_attached, is_ticking,
  judge_targets,
}
use spotjam.Playback.Driver.Steps.{
  Event, reading_came, command_answered, attach_asked, detach_asked, started, stop_asked,
  bridge_changed, poked, step, run, IsNoAttach, NoAttach,
}

-- Detached, and nothing more was sent.
pub record IsHandsOff (sent : List Command) (d : Driver) : Type 0 where
  pub off : d.mode ≡ detached
  pub quiet : d.sent ≡ sent

module _ {sent : List Command} where
  if_IsHandsOff :
      {d d' : Driver} (b : Bool)
      → IsHandsOff sent d
      → IsHandsOff sent d'
      → IsHandsOff sent (if b then d else d')
  if_IsHandsOff true v w = v
  if_IsHandsOff false v w = w

  run_tick-IsHandsOff : (d : Driver) → IsHandsOff sent d → IsHandsOff sent (run_tick d)
  unfolding run_tick forget
  run_tick-IsHandsOff d v =
      if_IsHandsOff (is_ready d.bridge) (record { off = v.off; quiet = v.quiet })
        (if_IsHandsOff (d.dirty && not d.stopped) (record { off = v.off; quiet = v.quiet })
          (record { off = v.off; quiet = v.quiet }))

  tick-IsHandsOff : (d : Driver) → IsHandsOff sent d → IsHandsOff sent (tick d)
  unfolding tick
  tick-IsHandsOff d v =
      if_IsHandsOff (is_ticking d.flight) (record { off = v.off; quiet = v.quiet })
        (run_tick-IsHandsOff d v)

  end_tick-IsHandsOff : (d : Driver) → IsHandsOff sent d → IsHandsOff sent (end_tick d)
  unfolding end_tick
  end_tick-IsHandsOff d v =
      if_IsHandsOff (d.dirty && not d.stopped)
        (run_tick-IsHandsOff (record d { flight = at_rest; dirty = false })
          (record { off = v.off; quiet = v.quiet }))
        (record { off = v.off; quiet = v.quiet })

  keep_reading-IsHandsOff :
      (d : Driver) (g : ℕ) (obs : Observation)
      → IsHandsOff sent d
      → IsHandsOff sent (keep_reading d g obs)
  unfolding keep_reading
  keep_reading-IsHandsOff d g obs v =
      end_tick-IsHandsOff (if eqb g d.generation then record d { prev = some obs } else d)
        (if_IsHandsOff (eqb g d.generation) (record { off = v.off; quiet = v.quiet }) v)

  next_command-IsHandsOff :
      (d : Driver) (g : ℕ) (obs : Observation) (cs : List Command)
      → IsHandsOff sent d
      → IsHandsOff sent (next_command d g obs cs)
  unfolding next_command
  next_command-IsHandsOff d g obs [] v = keep_reading-IsHandsOff d g obs v
  next_command-IsHandsOff d g obs (c ∷ rest) v =
      let stays : may_send d g ≡ false = ground (arith, v.off) in
      rw (next_command, stays) (keep_reading-IsHandsOff d g obs v)

  module _ (sort : List String → List String) where
    take_in-IsHandsOff :
        (d : Driver) (g : ℕ) (obs : Observation) (scene : Scene)
        → IsHandsOff sent d
        → IsHandsOff sent (take_in sort d g obs scene)
    unfolding take_in publish_stuck
    take_in-IsHandsOff d g obs scene v =
        let pruned = prune d.outstanding obs scene.now in
        let sorted = record d {
          outstanding = pruned.kept;
          stuck = judge_targets d.stuck pruned scene.now;
        } in
        let told = publish_stuck sort sorted scene.now in
        let lazy : is_attached d.mode ≡ false = ground (arith, v.off) in
        rw (take_in, lazy)
          (keep_reading-IsHandsOff told g obs (record { off = v.off; quiet = v.quiet }))

    take_reading-IsHandsOff :
        (d : Driver) (g : ℕ) (obs : Observation) (scene : Scene)
        → IsHandsOff sent d
        → IsHandsOff sent (take_reading sort d g obs scene)
    unfolding take_reading
    take_reading-IsHandsOff d g obs scene v =
        let lazy : is_attached d.mode ≡ false = ground (arith, v.off) in
        rw (take_reading, lazy) (take_in-IsHandsOff d g obs scene v)

    observed-IsHandsOff :
        (d : Driver) (result : Option ObserveResult) (scene : Scene)
        → IsHandsOff sent d
        → IsHandsOff sent (observed sort d result scene)
    unfolding observed read
    observed-IsHandsOff d result scene v = on_flight d.flight refl
      where
        on_read : (g : ℕ) (r : Option ObserveResult) → IsHandsOff sent (read sort d g r scene)
        on_read g none = end_tick-IsHandsOff d v
        on_read g (some r) =
            if_IsHandsOff (d.stopped || not (eqb g d.generation)) (end_tick-IsHandsOff d v)
              (take_reading-IsHandsOff d g (observation_from r scene.now) scene v)

        on_flight : (f : Flight) → d.flight ≡ f → IsHandsOff sent (observed sort d result scene)
        on_flight at_rest e = rw (observed, e) v
        on_flight (reading g) e = rw (observed, e) (on_read g result)
        on_flight (sending g obs c rest) e = rw (observed, e) v

    answered-IsHandsOff :
        (d : Driver) (reached : Bool) (now : ℤ)
        → IsHandsOff sent d
        → IsHandsOff sent (answered sort d reached now)
    unfolding answered after_send
    answered-IsHandsOff d reached now v = on_flight d.flight refl
      where
        on_sent :
            (g : ℕ) (obs : Observation) (c : Command) (rest : List Command) (b : Bool)
            → IsHandsOff sent (after_send sort d g obs c rest b now)
        on_sent g obs c rest false = next_command-IsHandsOff d g obs rest v
        on_sent g obs c rest true =
            let stays : may_send d g ≡ false = ground (arith, v.off) in
            rw (after_send, stays) (keep_reading-IsHandsOff d g obs v)

        on_flight : (f : Flight) → d.flight ≡ f → IsHandsOff sent (answered sort d reached now)
        on_flight at_rest e = rw (answered, e) v
        on_flight (reading g) e = rw (answered, e) v
        on_flight (sending g obs c rest) e = rw (answered, e) (on_sent g obs c rest reached)

    step-IsHandsOff :
        (d : Driver) (e : Event)
        → IsNoAttach e
        → IsHandsOff sent d
        → IsHandsOff sent (step sort d e)
    unfolding step detach_player start stop bridge_change poke publish_stuck set_mode forget
    step-IsHandsOff d (reading_came result scene) _ v = observed-IsHandsOff d result scene v
    step-IsHandsOff d (command_answered reached now) _ v = answered-IsHandsOff d reached now v
    step-IsHandsOff d (attach_asked now) h v = absurd h
    step-IsHandsOff d detach_asked _ v = record { off = refl; quiet = v.quiet }
    step-IsHandsOff d started _ v =
        if_IsHandsOff d.stopped
          (tick-IsHandsOff (record d { stopped = false }) (record { off = v.off; quiet = v.quiet }))
          v
    step-IsHandsOff d (stop_asked now) _ v = record { off = v.off; quiet = v.quiet }
    step-IsHandsOff d (bridge_changed state) _ v =
        let heard = record d { bridge = some state } in
        let w : IsHandsOff sent heard = record { off = v.off; quiet = v.quiet } in
        if_IsHandsOff d.stopped v (
          if_IsHandsOff (is_ready (some state) && not (is_ready d.bridge)) (tick-IsHandsOff heard w)
            w)
    step-IsHandsOff d poked _ v = if_IsHandsOff d.stopped v (tick-IsHandsOff d v)

    run-IsHandsOff :
        (d : Driver) (events : List Event)
        → NoAttach events
        → IsHandsOff sent d
        → IsHandsOff sent (run sort d events)
    run-IsHandsOff d [] _ v = v
    run-IsHandsOff d (e ∷ events) (h, hs) v =
        run-IsHandsOff (step sort d e) events hs (step-IsHandsOff d e h v)

module _ (sort : List String → List String) where
  -- A driver that is detached stays detached and sends no command, whatever happens to it, until
  -- somebody asks to attach.
  pub run_detached :
      (d : Driver) (events : List Event)
      → d.mode ≡ detached
      → NoAttach events
      → ((run sort d events).mode ≡ detached) × ((run sort d events).sent ≡ d.sent)
  run_detached d events off alone =
      let v =
        run-IsHandsOff {sent = d.sent} sort d events alone (record { off = off; quiet = refl }) in
      (v.off, v.quiet)
