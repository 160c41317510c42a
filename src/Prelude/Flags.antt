-- ===== src/Prelude/Flags.antt =====
-- The bits of a register, by their numbers.
use Prim.Native.Nat.{ℕ, zero, suc, ◌+◌, ◌*◌, ◌/◌, ◌%◌, ◌<◌, min, max}
use mathlib.Core.Path.{◌≡◌, refl}
use mathlib.Core.Bool.{Bool, false, not, ◌&&◌, ◌||◌}
use native.Mathlib.Omega.{arith}
use linux_gpib.Prelude.Tests.{ltb, ◌==◌, if◌then◌else◌}

-- `x & (1 << k)`, as a test
unfoldable pub has : ℕ → ℕ → Bool
has x zero = x % 2 == 1
has x (suc k) = has (x / 2) k

-- `x | (1 << k)`
unfoldable pub with : ℕ → ℕ → ℕ
with x zero = x / 2 * 2 + 1
with x (suc k) = with (x / 2) k * 2 + x % 2

-- `x & ~(1 << k)`
unfoldable pub without : ℕ → ℕ → ℕ
without x zero = x / 2 * 2
without x (suc k) = without (x / 2) k * 2 + x % 2

half_digit : (a b : ℕ) → b < 2 → (a * 2 + b) / 2 ≡ a
half_digit a b h = omega arith

pub has-with : (x j k : ℕ) → has (with x j) k ≡ (j == k || has x k)
unfolding has with
has-with x zero zero = ground arith
has-with x zero (suc k) = let e : (x / 2 * 2 + 1) / 2 ≡ x / 2 = omega arith in rw e (ground arith)
has-with x (suc j) zero = ground arith
has-with x (suc j) (suc k) =
    rw (half_digit (with (x / 2) j) (x % 2) (omega arith)) (ground (arith, has-with (x / 2) j k))

pub has-without : (x j k : ℕ) → has (without x j) k ≡ (not (j == k) && has x k)
unfolding has without
has-without x zero zero = ground arith
has-without x zero (suc k) = let e : x / 2 * 2 / 2 ≡ x / 2 = omega arith in rw e (ground arith)
has-without x (suc j) zero = ground arith
has-without x (suc j) (suc k) =
    rw (half_digit (without (x / 2) j) (x % 2) (omega arith))
      (ground (arith, has-without (x / 2) j k))

-- `x | m` for a mask `m` of one bit
abbrev pub or_mask : ℕ → ℕ → ℕ
or_mask x m = if x / m % 2 == 1 then x else x + m

-- a bit set to a value
unfoldable pub assign : ℕ → ℕ → Bool → ℕ
assign x j b = if b then with x j else without x j

pub has-assign : (x j k : ℕ) (b : Bool) → has (assign x j b) k ≡ (if j == k then b else has x k)
unfolding assign
has-assign x j k b = ground (arith, has-with x j k, has-without x j k)

-- Each bit of a register that was changed bit by bit.
pub ruleset bits = (has-with, has-without, has-assign)

-- `x & y`, for registers of so many bits
unfoldable pub mask : ℕ → ℕ → ℕ → ℕ
mask zero x y = 0
mask (suc width) x y = mask width (x / 2) (y / 2) * 2 + min (x % 2) (y % 2)

pub has-zero : (k : ℕ) → has 0 k ≡ false
unfolding has
has-zero zero = refl
has-zero (suc k) = has-zero k

pub has-mask : (width x y k : ℕ) → has (mask width x y) k ≡ (ltb k width && (has x k && has y k))
unfolding has mask
has-mask zero x y k = rw (has-zero k) (ground arith)
has-mask (suc width) x y zero = ground arith
has-mask (suc width) x y (suc k) =
    rw (half_digit (mask width (x / 2) (y / 2)) (min (x % 2) (y % 2)) (omega arith))
      (ground (arith, has-mask width (x / 2) (y / 2) k))

-- `x | y`, for registers of so many bits
unfoldable pub merge : ℕ → ℕ → ℕ → ℕ
merge zero x y = 0
merge (suc width) x y = merge width (x / 2) (y / 2) * 2 + max (x % 2) (y % 2)

pub has-merge : (width x y k : ℕ) → has (merge width x y) k ≡ (ltb k width && (has x k || has y k))
unfolding has merge
has-merge zero x y k = rw (has-zero k) (ground arith)
has-merge (suc width) x y zero = ground arith
has-merge (suc width) x y (suc k) =
    rw (half_digit (merge width (x / 2) (y / 2)) (max (x % 2) (y % 2)) (omega arith))
      (ground (arith, has-merge width (x / 2) (y / 2) k))
