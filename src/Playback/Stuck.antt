-- ===== src/Playback/Stuck.antt =====
-- apps/desktop/src/lib/playback/stuck.ts: targets that Spotify will not take.
pub mod Laws
use spotjam.Prelude.{
  ℕ, suc, ◌+◌, leb, ℤ, pos, ◌-ℤ◌, ltb_ℤ, String, Bool, true, false, not, if◌then◌else◌, Option,
  none, some, List, [], ◌∷◌, keep_if, Map,
}
use spotjam.Prelude.Dict
use spotjam.Playback.Commands.{Command, target_of}

abbrev pub stuck_after : ℕ
stuck_after = 5

abbrev pub stuck_ttl_ms : ℤ
stuck_ttl_ms = pos 60000

pub record Failure : Type 0 where
  pub count : ℕ
  pub at : ℤ

-- `StuckState`: the failures of each target
abbrev pub StuckState : Type 0
StuckState = Map Failure

-- `freshStuck`
abbrev pub fresh_stuck : StuckState
fresh_stuck = []

-- `live`
unfoldable pub live : Option Failure → ℤ → Option Failure
live none now = none
live (some failure) now = if ltb_ℤ (now -ℤ failure.at) stuck_ttl_ms then some failure else none

abbrev pub count_of : Option Failure → ℕ
count_of none = 0
count_of (some failure) = failure.count

unfoldable pub record_one : StuckState → Command → ℤ → StuckState
record_one state command now =
    let target = target_of command in
    let previous = live (Dict.get target state) now in
    Dict.put target (record { count = count_of previous + 1; at = now }) state

-- `recordExpired`
unfoldable pub record_expired : StuckState → List Command → ℤ → StuckState
record_expired state [] now = state
record_expired state (command ∷ rest) now = record_expired (record_one state command now) rest now

-- `recordSuccess`
unfoldable pub record_success : StuckState → List Command → StuckState
record_success state [] = state
record_success state (command ∷ rest) = record_success (Dict.delete (target_of command) state) rest

-- `isStuck`
unfoldable pub is_stuck : StuckState → Command → ℤ → Bool
is_stuck state command now =
    leb stuck_after (count_of (live (Dict.get (target_of command) state) now))

-- `dropStuck`
unfoldable pub drop_stuck : StuckState → List Command → ℤ → List Command
drop_stuck state commands now = keep_if (λ command. not (is_stuck state command now)) commands

-- The targets that count as stuck, in the order of the map.
unfoldable pub stuck_keys : StuckState → ℤ → List String
unfolding live
stuck_keys [] now = []
stuck_keys ((target, failure) ∷ rest) now =
    let others = stuck_keys rest now in
    if leb stuck_after (count_of (live (some failure) now)) then target ∷ others else others

-- `stuckTargets`, with the runtime's sort of texts
unfoldable pub stuck_targets : (List String → List String) → StuckState → ℤ → List String
unfolding stuck_keys
stuck_targets sort state now = sort (stuck_keys state now)
