-- ===== src/Wallet/Amounts.antt =====
-- wallet/src/builder.rs: amounts and lock times by which outputs are told apart. Subtractions cannot
-- go below zero here, but for that of the lock time, which wraps around in a release build; the
-- additions wrap around at 64 bits.
use spaced.Node.Block.{sub_u32}
use spaced.Prepare.{is_magic_lock_time, is_magic_amount}
use spaced.Bitcoin.{seconds, LockTime}
use spaced.Base.{
  refl, none, arith, some, false, leb, expect, if◌then◌else◌, true, min, ok, Result, ◌≤◌, ◌==◌, ◌≡◌,
  ◌%◌, ◌^◌, ◌+◌, ◌<◌, Bool, ◌-◌, Option, ℕ,
}

abbrev pub add_u64 : ℕ → ℕ → ℕ
add_u64 a b = (a + b) % 2 ^ 64

-- `magic_dust`
unfoldable pub magic_dust : ℕ → ℕ
magic_dust amount = add_u64 (amount - amount % 10) 2

-- `connector_dust`
unfoldable pub connector_dust : ℕ → ℕ
connector_dust amount = add_u64 (amount - amount % 10) 4

-- `space_dust`
unfoldable pub space_dust : ℕ → ℕ
space_dust amount = add_u64 (amount - amount % 10) 6

-- `is_connector_dust`
abbrev pub is_connector_dust : ℕ → Bool
is_connector_dust amount = amount % 10 == 4

-- `is_space_dust`
abbrev pub is_space_dust : ℕ → Bool
is_space_dust amount = amount % 10 == 6

-- `LockTime::from_time` of the crate takes a time from 500,000,000 on.
abbrev pub lock_time_from_time : (ℕ → Option LockTime) → ℕ → Result LockTime
lock_time_from_time from_time time = expect (from_time time)

-- `magic_lock_time`
unfoldable pub magic_lock_time : (ℕ → Option LockTime) → ℕ → Result LockTime
magic_lock_time from_time median_time =
    let median = min median_time (2 ^ 32 - 1) in
    let magic_time = sub_u32 (median - median % 1000) (1000 - 222) in
    lock_time_from_time from_time magic_time

-- What the crate documents: a lock time of at least 500,000,000 is one in seconds.
abbrev pub FromTimeLaw : (ℕ → Option LockTime) → Type 0
FromTimeLaw from_time =
    (time : ℕ) → from_time time ≡ (if leb 500_000_000 time then some (seconds time) else none)

-- Of an amount below 2 ^ 63, the three kinds of dust are told apart by their last digits, and each is
-- within ten of the amount.
pub dust_kinds :
    (amount : ℕ)
    → amount < 2 ^ 63
    → (is_magic_amount (magic_dust amount) ≡ true)
      × (is_connector_dust (connector_dust amount) ≡ true)
      × (is_space_dust (space_dust amount) ≡ true)
      × (is_connector_dust (magic_dust amount) ≡ false)
      × (is_space_dust (magic_dust amount) ≡ false)
      × (is_magic_amount (connector_dust amount) ≡ false)
      × (is_magic_amount (space_dust amount) ≡ false)
      × (space_dust amount < amount + 10)
      × (amount < magic_dust amount + 10)
unfolding magic_dust connector_dust space_dust
dust_kinds amount small =
    let low : (amount - amount % 10) % 10 ≡ 0 = omega arith in
    (
      ground (arith, small, low),
      ground (arith, small, low),
      ground (arith, small, low),
      ground (arith, small, low),
      ground (arith, small, low),
      ground (arith, small, low),
      ground (arith, small, low),
      ground (arith, small, low),
      ground (arith, small, low),
    )

-- For a median time of 32 bits from 500,001,000 on, the lock time is one in seconds that the protocol
-- looks for, before the median time and at most 1,778 seconds before it.
pub magic_lock_time-bounds :
    (from_time : ℕ → Option LockTime) (median_time : ℕ)
    → FromTimeLaw from_time
    → 500_001_000 ≤ median_time
    → median_time < 2 ^ 32
    → (time : ℕ) × (magic_lock_time from_time median_time ≡ ok (seconds time))
      × (is_magic_lock_time (seconds time) ≡ true)
      × (time < median_time)
      × (median_time ≤ time + 1777)
unfolding magic_lock_time
magic_lock_time-bounds from_time median_time law late small =
    let time = median_time - median_time % 1000 - 778 in
    let same : sub_u32 (min median_time (2 ^ 32 - 1) - min median_time (2 ^ 32 - 1) % 1000)
          (1000 - 222)
        ≡ time =
      omega (arith, late, small) in
    let known : from_time time ≡ some (seconds time) = ground (arith, law time, late) in
    (
      time,
      rw (magic_lock_time, same, known) refl,
      ground (arith, late),
      omega (arith, late),
      omega (arith, late),
    )
