-- ===== src/Connector/Delays.antt =====
-- internal/connector/connector.go: how long `Run` waits before it dials again, and `jitter`. Times are
-- in nanoseconds. The code multiplies float64s: the product with 1.7 is the one here for every delay
-- below 2^48 nanoseconds, more than three days, and the one with jitter's factor for the same delays
-- but for at most one nanosecond.
pub mod Backoff
use tailscale_railway_quic_b.Common.{
  ℕ, zero, suc, ◌+◌, ◌*◌, ◌/◌, ◌^◌, ◌≤◌, ◌<◌, ◌≡◌, refl, List, [], ◌∷◌, ◌++◌, All, length, min, map,
  arith,
}

-- How an attempt of the loop ends: the dial failed, the session ended before it had lasted for the
-- greatest delay, or it lasted. `drawn` is what rand.Float64 draws for the wait, out of 2^53.
pub data Attempt : Type 0 where
  failed short_session : (drawn : ℕ) → Attempt
  long_session : Attempt

-- `jitter`: the duration times 0.8 and 0.4 times the drawn fraction.
unfoldable pub jitter : ℕ → ℕ → ℕ
jitter drawn duration = duration * (2 * 2 ^ 53 + drawn) * 2 / (5 * 2 ^ 53)

-- `min(time.Duration(float64(delay)*1.7), ReconnectMax)`.
unfoldable pub longer : ℕ → ℕ → ℕ
longer greatest delay = min (delay * 17 / 10) greatest

-- The delay behind an attempt.
unfoldable pub next_delay : ℕ → ℕ → ℕ → Attempt → ℕ
unfolding longer
next_delay least greatest delay (failed drawn) = longer greatest delay
next_delay least greatest delay (short_session drawn) = longer greatest delay
next_delay least greatest delay long_session = least

-- The waits behind an attempt: none behind a session that lasted.
unfoldable pub wait_for : ℕ → Attempt → List ℕ
unfolding jitter
wait_for delay (failed drawn) = jitter drawn delay ∷ []
wait_for delay (short_session drawn) = jitter drawn delay ∷ []
wait_for delay long_session = []

-- The loop of `Run`, from a delay: the waits in their order.
unfoldable pub waits_from : ℕ → ℕ → ℕ → List Attempt → List ℕ
unfolding wait_for next_delay
waits_from least greatest delay [] = []
waits_from least greatest delay (x ∷ xs) =
    wait_for delay x ++ waits_from least greatest (next_delay least greatest delay x) xs

-- The waits of `Run`, for the attempts that the loop makes.
unfoldable pub waits : ℕ → ℕ → List Attempt → List ℕ
unfolding waits_from
waits least greatest xs = waits_from least greatest least xs
