-- ===== src/Client/View/Backoff.antt =====
-- packages/room/src/lib/room-client.ts: how long a client waits before it tries again.
use spotjam.Prelude.{ℕ, zero, suc, ◌+◌, ◌^◌, ◌≤◌, ℤ, ◌≤ℤ◌, pos, pos_part, arith, ◌≡◌}
use spotjam.Client.View.{backoff_ms}

pow_pos : (n : ℕ) → 1 ≤ 2 ^ n
pow_pos zero = omega arith
pow_pos (suc n) = omega (arith, pow_pos n)

pow_mono : (m n : ℕ) → m ≤ n → 2 ^ m ≤ 2 ^ n
pow_mono zero n h = pow_pos n
pow_mono (suc m) zero h = absurd (omega arith)
pow_mono (suc m) (suc n) h = omega (arith, pow_mono m n (ground arith))

-- A later try waits no less than an earlier one, and every wait is between half a second and
-- fifteen seconds.
pub backoff_ms_bounds :
    (a b : ℤ)
    → a ≤ℤ b
    → (500 ≤ backoff_ms a) × (backoff_ms a ≤ backoff_ms b) × (backoff_ms b ≤ 15000)
unfolding backoff_ms
backoff_ms_bounds a b h =
    ground (arith, pow_pos (pos_part a), pow_mono (pos_part a) (pos_part b) (ground arith))

-- From the sixth try on, the wait is fifteen seconds.
pub backoff_ms_cap : (n : ℕ) → backoff_ms (pos (n + 5)) ≡ 15000
unfolding backoff_ms
backoff_ms_cap n = ground (arith, pow_mono 5 (n + 5) (ground arith))
