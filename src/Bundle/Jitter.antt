-- ===== src/Bundle/Jitter.antt =====
-- src/bundle/jitter.rs. The random index is an argument.
use mayfly_server.Prelude.{
  ℕ, ◌+◌, ◌-◌, ◌*◌, ◌/◌, ◌%◌, ◌^◌, ◌≤◌, ◌<◌, min, max, ◌==◌, arith, if◌then◌else◌,
}
use native.Mathlib.Nat.{mul-le-mul_left}

-- `base.saturating_mul(percent) / 100` on `u32`, for a percentage that is at most 100.
abbrev pub delta : ℕ → ℕ → ℕ
delta base_seconds percent = min (base_seconds * min percent 100) (2 ^ 32 - 1) / 100

-- `next_index` is called with the span and gives an index. The sum is on `i64`: it is not negative,
-- since `delta` is at most the base, and `as u32` wraps around.
unfoldable pub with_jitter : ℕ → ℕ → (ℕ → ℕ) → ℕ
with_jitter base_seconds percent next_index =
    let d = delta base_seconds percent in
    if base_seconds == 0
    then 1
    else if d == 0
    then max base_seconds 1
    else max (base_seconds + next_index (d * 2 + 1) - d) 1 % 2 ^ 32

delta-le : (base percent : ℕ) → delta base percent ≤ base * min percent 100 / 100
delta-le base percent = ground arith

delta-le-base : (base percent : ℕ) → delta base percent ≤ base
delta-le-base base percent =
    omega (arith, mul-le-mul_left {m = min percent 100} {n = 100} base (omega arith))

-- The interval is at least a second, and for a base of at least a second it is off by no more than
-- `percent` hundredths of the base in each direction, if the index is below the span and the base
-- with the offset stays below 2 ^ 32.
pub with_jitter-range :
    (base percent : ℕ) (next_index : ℕ → ℕ)
    → next_index (delta base percent * 2 + 1) < delta base percent * 2 + 1
    → base + delta base percent < 2 ^ 32
    → 1 ≤ base
    → (1 ≤ with_jitter base percent next_index)
      × (base ≤ with_jitter base percent next_index + base * min percent 100 / 100)
      × (with_jitter base percent next_index ≤ base + base * min percent 100 / 100)
unfolding with_jitter
with_jitter-range base percent next_index below small some_base =
    ground (arith, delta-le base percent, delta-le-base base percent)
