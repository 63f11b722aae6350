-- ===== src/Connector/Delays/Backoff.antt =====
-- The waits of `Run` are an exponential back-off between its bounds.
use native.Mathlib.Nat.{mul-le-mul_left}
use tailscale_railway_quic_b.Common.{
  ◌≡◌, ℕ, zero, suc, ◌+◌, ◌*◌, ◌/◌, ◌^◌, ◌≤◌, ◌<◌, refl, ap, ◌∙◌, List, [], ◌∷◌, All, min, arith,
}
use tailscale_railway_quic_b.Connector.Delays.{
  Attempt, failed, short_session, long_session, jitter, longer, next_delay, wait_for, waits_from,
  waits,
}

-- What rand.Float64 draws is below 1.
unfoldable pub IsDrawn : Attempt → Type 0
IsDrawn (failed drawn) = drawn < 2 ^ 53
IsDrawn (short_session drawn) = drawn < 2 ^ 53
IsDrawn long_session = Unit

-- A wait between 0.8 times the lower bound, rounded down, and 1.2 times the upper one.
abbrev pub Between : ℕ → ℕ → ℕ → Type 0
Between least greatest w = (least * 4 / 5 ≤ w) × (w ≤ greatest * 6 / 5)

product_bounds :
    (least greatest d p : ℕ)
    → least ≤ d
    → d ≤ greatest
    → d * (2 * 2 ^ 53) ≤ p
    → p ≤ d * (3 * 2 ^ 53)
    → Between least greatest (p * 2 / (5 * 2 ^ 53))
product_bounds least greatest d p a b l g = (omega arith, omega arith)

jitter-Between :
    (least greatest d drawn : ℕ)
    → least ≤ d
    → d ≤ greatest
    → drawn < 2 ^ 53
    → Between least greatest (jitter drawn d)
unfolding jitter
jitter-Between least greatest d drawn a b h =
    product_bounds least greatest d (d * (2 * 2 ^ 53 + drawn)) a b (mul-le-mul_left d (omega arith))
      (mul-le-mul_left d (omega arith))

waits_from-Between :
    (least greatest delay : ℕ) (xs : List Attempt)
    → least ≤ greatest
    → least ≤ delay
    → delay ≤ greatest
    → All IsDrawn xs
    → All (Between least greatest) (waits_from least greatest delay xs)
unfolding waits_from wait_for next_delay longer IsDrawn
waits_from-Between least greatest delay [] h l g _ = tt
waits_from-Between least greatest delay (failed u ∷ xs) h l g (d, ds) = (
  jitter-Between least greatest delay u l g d,
  waits_from-Between least greatest _ xs h (omega arith) (omega arith) ds,
)
waits_from-Between least greatest delay (short_session u ∷ xs) h l g (d, ds) = (
  jitter-Between least greatest delay u l g d,
  waits_from-Between least greatest _ xs h (omega arith) (omega arith) ds,
)
waits_from-Between least greatest delay (long_session ∷ xs) h l g (d, ds) =
    waits_from-Between least greatest least xs h (omega arith) h ds

-- However the attempts to reach the edge end, and whatever is drawn, every wait between two of them is
-- at least 0.8 times the lower bound, rounded down to nanoseconds, and at most 1.2 times the upper one.
-- The lower bound is not above the upper one.
pub waits-Between :
    (least greatest : ℕ) (xs : List Attempt)
    → least ≤ greatest
    → All IsDrawn xs
    → All (Between least greatest) (waits least greatest xs)
unfolding waits
waits-Between least greatest xs h d = waits_from-Between least greatest least xs h (omega arith) h d

-- 1.7 times, rounded down, and that `n` times.
unfoldable pub grown : ℕ → ℕ → ℕ
grown zero d = d
grown (suc n) d = grown n d * 17 / 10

-- The waits after `n` failures in a row: each is jitter's of the lower bound, which has grown as many
-- times as there were failures since the start or the last session that lasted, up to the upper one.
unfoldable pub backoff : ℕ → ℕ → ℕ → List Attempt → List ℕ
unfolding grown
backoff least greatest n [] = []
backoff least greatest n (failed u ∷ xs) =
    jitter u (min greatest (grown n least)) ∷ backoff least greatest (suc n) xs
backoff least greatest n (short_session u ∷ xs) =
    jitter u (min greatest (grown n least)) ∷ backoff least greatest (suc n) xs
backoff least greatest n (long_session ∷ xs) = backoff least greatest 0 xs

longer-min : (greatest d : ℕ) → longer greatest (min greatest d) ≡ min greatest (d * 17 / 10)
unfolding longer
longer-min greatest d = omega arith

from_least : (least greatest : ℕ) → least ≤ greatest → least ≡ min greatest (grown 0 least)
unfolding grown
from_least least greatest h = omega arith

longer-grown :
    (least greatest n : ℕ) (delay : ℕ)
    → delay ≡ min greatest (grown n least)
    → longer greatest delay ≡ min greatest (grown (suc n) least)
unfolding grown
longer-grown least greatest n delay e = ap (longer greatest) e ∙ longer-min greatest (grown n least)

waits_from-backoff :
    (least greatest delay n : ℕ) (xs : List Attempt)
    → least ≤ greatest
    → delay ≡ min greatest (grown n least)
    → waits_from least greatest delay xs ≡ backoff least greatest n xs
unfolding waits_from wait_for next_delay backoff
waits_from-backoff least greatest delay n [] h e = refl
waits_from-backoff least greatest delay n (failed u ∷ xs) h e =
    ap (λ d. jitter u d ∷ waits_from least greatest (longer greatest delay) xs) e
    ∙ ap (λ ws. jitter u (min greatest (grown n least)) ∷ ws)
        (waits_from-backoff least greatest (longer greatest delay) (suc n) xs h
          (longer-grown least greatest n delay e))
waits_from-backoff least greatest delay n (short_session u ∷ xs) h e =
    ap (λ d. jitter u d ∷ waits_from least greatest (longer greatest delay) xs) e
    ∙ ap (λ ws. jitter u (min greatest (grown n least)) ∷ ws)
        (waits_from-backoff least greatest (longer greatest delay) (suc n) xs h
          (longer-grown least greatest n delay e))
waits_from-backoff least greatest delay n (long_session ∷ xs) h e =
    waits_from-backoff least greatest least 0 xs h (from_least least greatest h)

-- The waits of the connector are an exponential back-off: behind the failed dial or the short session
-- that follows `n` others since the start, or since the last session that lasted, it waits for jitter's
-- share of the lower bound grown `n` times by 1.7, or of the upper bound if that is less; behind a
-- session that lasted it does not wait. The lower bound is not above the upper one.
pub waits-backoff :
    (least greatest : ℕ) (xs : List Attempt)
    → least ≤ greatest
    → waits least greatest xs ≡ backoff least greatest 0 xs
unfolding waits
waits-backoff least greatest xs h =
    waits_from-backoff least greatest least 0 xs h (from_least least greatest h)
