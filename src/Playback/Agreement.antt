-- ===== src/Playback/Agreement.antt =====
-- apps/desktop/src/lib/playback/reconcile.ts: when there is nothing to command.
use spotjam.Prelude.{
  ℤ, pos, ◌-ℤ◌, leb_ℤ, abs_ℤ, String, Bool, false, not, ◌&&◌, ◌||◌, Option, none, some, is_none,
  List, [], ◌∷◌, ◌++◌, arith, ◌≡◌, refl,
}
use spotjam.Prelude.Dict
use spotjam.Protocol.Tracks.{is_empty}
use spotjam.Playback.Observation.{Observation, is_ad}
use spotjam.Playback.Commands.{Command}
use spotjam.Playback.Expectations.{pending, arriving, same_uri}
use spotjam.Playback.Stuck.{fresh_stuck, is_stuck, live}
use spotjam.Playback.Desired.{Desired}
use spotjam.Playback.Reconcile.{
  reconcile, idle_commands, transport_commands, queue_commands, start_track, set_play_state,
  correct_drift, off_the_clock, same_bool, max_drift_ms,
}

-- The player does what is wanted: the track, paused or not, within the drift of the wanted position
-- or still loading at 0, with the wanted track next; or when nothing is wanted, it is paused with
-- nothing next.
abbrev pub agrees : Desired → Observation → Bool
agrees Desired.idle obs = obs.is_paused && is_none obs.queue_head
agrees (Desired.play uri position_ms duration_ms paused next) obs =
    same_uri obs.track_uri (some uri)
    && (same_bool obs.is_paused paused
        && ((leb_ℤ (abs_ℤ (obs.position_ms -ℤ position_ms)) max_drift_ms
              || (not obs.is_paused && leb_ℤ obs.position_ms (pos 0)))
            && same_uri obs.queue_head next))

both_empty : (xs ys : List Command) → is_empty (xs ++ ys) ≡ is_empty xs && is_empty ys
both_empty [] ys = refl
both_empty (x ∷ xs) ys = refl

not_stuck : (c : Command) (now : ℤ) → is_stuck fresh_stuck c now ≡ false
unfolding is_stuck live Dict.get
not_stuck c now = refl

transport_empty :
    (uri : String) (position_ms : ℤ) (paused : Bool) (obs : Observation) (now : ℤ)
    → is_ad obs.track_uri ≡ false
    → is_empty (transport_commands uri position_ms paused obs [] fresh_stuck now)
      ≡ same_uri obs.track_uri (some uri)
        && (same_bool obs.is_paused paused
            && (leb_ℤ (abs_ℤ (obs.position_ms -ℤ position_ms)) max_drift_ms
                || (not obs.is_paused && leb_ℤ obs.position_ms (pos 0))))
unfolding transport_commands start_track set_play_state correct_drift off_the_clock pending arriving
transport_empty uri position_ms paused obs now no_ad =
    ground (arith, not_stuck (Command.play uri) now)

queue_empty :
    (next : Option String) (obs : Observation)
    → is_empty (queue_commands next obs []) ≡ same_uri obs.queue_head next
unfolding queue_commands pending arriving
queue_empty none obs = ground arith
queue_empty (some uri) obs = ground arith

-- With nothing outstanding, nothing stuck and no ad playing, reconcile has no command exactly when
-- the player does what is wanted: the wanted track, paused or not as wanted, within three seconds
-- of the wanted position or playing at 0 or less, and the wanted track next; or when nothing is
-- wanted, paused with nothing next.
pub reconcile-agrees :
    (desired : Desired) (obs : Observation) (now : ℤ)
    → is_ad obs.track_uri ≡ false
    → is_empty (reconcile desired obs [] fresh_stuck now) ≡ agrees desired obs
unfolding reconcile idle_commands pending
reconcile-agrees Desired.idle obs now no_ad = ground arith
reconcile-agrees (Desired.play uri p d paused next) obs now no_ad = ground (
  arith,
  both_empty (transport_commands uri p paused obs [] fresh_stuck now) (queue_commands next obs []),
  transport_empty uri p paused obs now no_ad,
  queue_empty next obs,
)
