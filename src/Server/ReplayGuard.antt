-- ===== src/Server/ReplayGuard.antt =====
-- apps/server/src/replay-guard.ts: the spent nonces, in the order of their insertion.
pub mod Laws
use spotjam.Prelude.{
  ℕ, ℤ, ◌+ℤ◌, ltb, ltb_ℤ, max_ℤ, String, Bool, true, false, not, if◌then◌else◌, List, [], ◌∷◌,
  length, keep_if, Map,
}
use spotjam.Prelude.Dict

-- `ReplayGuard`: each spent nonce with the instant after which it may be forgotten.
pub record ReplayGuard : Type 0 where
  pub window_ms : ℤ
  pub max_entries : ℕ
  pub seen : Map ℤ

-- The constructor.
unfoldable pub new_guard : ℤ → ℕ → ReplayGuard
new_guard window_ms max_entries = record {
  window_ms = window_ms;
  max_entries = max_entries;
  seen = [];
}

-- `evictExpired`
unfoldable pub evict_expired : Map ℤ → ℤ → Map ℤ
evict_expired [] now = []
evict_expired ((nonce, expires_at) ∷ rest) now =
    let later = evict_expired rest now in
    if ltb_ℤ expires_at now then later else (nonce, expires_at) ∷ later

-- `evictOverflow`: the loop that drops the oldest entry.
unfoldable pub evict_overflow : ℕ → Map ℤ → Map ℤ
evict_overflow max_entries [] = []
evict_overflow max_entries (oldest ∷ rest) =
    let trimmed = evict_overflow max_entries rest in
    if ltb max_entries (length (oldest ∷ rest)) then trimmed else oldest ∷ rest

-- `admit` of a nonce that was not seen.
unfoldable pub remember : ReplayGuard → Map ℤ → String → ℤ → ℤ → ReplayGuard
unfolding evict_overflow
remember guard live nonce now timestamp = record guard {
  seen =
      evict_overflow guard.max_entries
        (Dict.put nonce (max_ℤ now timestamp +ℤ guard.window_ms) live);
}

-- `admit`
unfoldable pub admit : ReplayGuard → String → ℤ → ℤ → ReplayGuard × Bool
unfolding evict_expired remember
admit guard nonce now timestamp =
    let live = evict_expired guard.seen now in
    if Dict.has nonce live
    then (record guard { seen = live }, false)
    else (remember guard live nonce now timestamp, true)
