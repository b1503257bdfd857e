-- ===== src/Base/Bits.antt =====
-- `&`, `|` and `^` as arithmetic: one equation for the lowest digit, and what the masks of the
-- sources come to.
use Prim.Native.Nat.{ℕ, zero, suc, ◌+◌, ◌*◌, ◌/◌, ◌%◌, ◌^◌, ◌≤◌, ◌<◌, min, max}
use Prim.Native.Nat.{bit_and, bit_or, bitwise, digits}
use Prim.Native.Nat.{bit_and-bitwise, bit_or-bitwise}
use mathlib.Core.Path.{◌≡◌, refl, sym, ap, ◌∙◌}
use native.Mathlib.Omega.{arith}
use native.Mathlib.Nat.{pow-suc, pow-succ', mul_left_comm}

module _ (end : ℕ → ℕ) (join : ℕ → ℕ → ℕ) where
  -- Fuel beyond the first operand makes no difference.
  spare_fuel :
      (n x fuel y : ℕ) → x ≤ n → x ≤ fuel → digits end join fuel x y ≡ digits end join x x y
  spare_fuel n zero zero y small enough = refl
  spare_fuel n zero (suc fuel) y small enough = refl
  spare_fuel n (suc x) zero y small enough = absurd (omega arith)
  spare_fuel zero (suc x) (suc fuel) y small enough = absurd (omega arith)
  spare_fuel (suc n) (suc x) (suc fuel) y small enough =
      let half = suc x / 2 in
      let by_rule = spare_fuel n half fuel (y / 2) (omega arith) (omega arith) in
      let by_size = spare_fuel n half x (y / 2) (omega arith) (omega arith) in
      ap (λ rest. rest * 2 + join (suc x % 2) (y % 2)) (by_rule ∙ sym by_size)

  last_digit :
      (x y : ℕ)
      → bitwise end join (suc x) y
        ≡ join (suc x % 2) (y % 2) + 2 * bitwise end join (suc x / 2) (y / 2)
  last_digit x y = omega (arith, spare_fuel x (suc x / 2) x (y / 2) (omega arith) (omega arith))

pub bit_or_step : (x y : ℕ) → bit_or x y ≡ max (x % 2) (y % 2) + 2 * bit_or (x / 2) (y / 2)
bit_or_step zero y = simp bit_or-bitwise (omega arith)
bit_or_step (suc x) y = simp bit_or-bitwise (last_digit (λ rest. rest) max x y)

pub bit_and_step : (x y : ℕ) → bit_and x y ≡ min (x % 2) (y % 2) + 2 * bit_and (x / 2) (y / 2)
bit_and_step zero y = simp bit_and-bitwise (omega arith)
bit_and_step (suc x) y = simp bit_and-bitwise (last_digit (λ rest. 0) min x y)

-- A result of `|` has no more digits than its operands.
pub bit_or-lt : (k a b : ℕ) → a < 2 ^ k → b < 2 ^ k → bit_or a b < 2 ^ k
bit_or-lt zero a b p q = ground (arith, bit_or-zeros a b)
  where
    bit_or-zeros : (a b : ℕ) → a < 1 → b < 1 → bit_or a b < 1
    bit_or-zeros zero zero p q = omega arith
    bit_or-zeros zero (suc b) p q = absurd (omega arith)
    bit_or-zeros (suc a) b p q = absurd (omega arith)
bit_or-lt (suc k) a b p q =
    omega
      (arith, bit_or_step a b, pow-suc 2 k, bit_or-lt k (a / 2) (b / 2) (halves a p) (halves b q))
  where
    halves : (c : ℕ) → c < 2 ^ suc k → c / 2 < 2 ^ k
    halves c h = omega (arith, pow-suc 2 k)

bit_and-none : (x n : ℕ) → x < suc n → bit_and x 0 ≡ 0
bit_and-none zero n below = refl
bit_and-none (suc x) zero below = absurd (omega arith)
bit_and-none (suc x) (suc n) below =
    let rest = bit_and-none (suc x / 2) n (omega arith) in
    omega (arith, bit_and_step (suc x) 0, rest)

pub bit_and-zero : (x : ℕ) → bit_and x 0 ≡ 0
bit_and-zero x = bit_and-none x x (omega arith)

-- Masks of low ones are remainders.
pub bit_and-1 : (a : ℕ) → bit_and a 1 ≡ a % 2
bit_and-1 a = omega (arith, bit_and_step a 1, bit_and-zero (a / 2))

pub bit_and-3 : (a : ℕ) → bit_and a 3 ≡ a % 4
bit_and-3 a = omega (arith, bit_and_step a 3, bit_and-1 (a / 2))

pub bit_and-7 : (a : ℕ) → bit_and a 7 ≡ a % 8
bit_and-7 a = omega (arith, bit_and_step a 7, bit_and-3 (a / 2))

pub bit_and-15 : (a : ℕ) → bit_and a 15 ≡ a % 16
bit_and-15 a = omega (arith, bit_and_step a 15, bit_and-7 (a / 2))

pub bit_and-31 : (a : ℕ) → bit_and a 31 ≡ a % 32
bit_and-31 a = omega (arith, bit_and_step a 31, bit_and-15 (a / 2))

pub bit_and-63 : (a : ℕ) → bit_and a 63 ≡ a % 64
bit_and-63 a = omega (arith, bit_and_step a 63, bit_and-31 (a / 2))

pub bit_and-127 : (a : ℕ) → bit_and a 127 ≡ a % 128
bit_and-127 a = omega (arith, bit_and_step a 127, bit_and-63 (a / 2))

pub bit_and-255 : (a : ℕ) → bit_and a 255 ≡ a % 256
bit_and-255 a = omega (arith, bit_and_step a 255, bit_and-127 (a / 2))

-- The single bits that the sources test.
bit_and-2 : (a : ℕ) → bit_and a 2 ≡ a / 2 % 2 * 2
bit_and-2 a = omega (arith, bit_and_step a 2, bit_and-1 (a / 2))

bit_and-4 : (a : ℕ) → bit_and a 4 ≡ a / 4 % 2 * 4
bit_and-4 a = omega (arith, bit_and_step a 4, bit_and-2 (a / 2))

bit_and-8 : (a : ℕ) → bit_and a 8 ≡ a / 8 % 2 * 8
bit_and-8 a = omega (arith, bit_and_step a 8, bit_and-4 (a / 2))

bit_and-16 : (a : ℕ) → bit_and a 16 ≡ a / 16 % 2 * 16
bit_and-16 a = omega (arith, bit_and_step a 16, bit_and-8 (a / 2))

bit_and-32 : (a : ℕ) → bit_and a 32 ≡ a / 32 % 2 * 32
bit_and-32 a = omega (arith, bit_and_step a 32, bit_and-16 (a / 2))

bit_and-64 : (a : ℕ) → bit_and a 64 ≡ a / 64 % 2 * 64
bit_and-64 a = omega (arith, bit_and_step a 64, bit_and-32 (a / 2))

pub bit_and-128 : (a : ℕ) → bit_and a 128 ≡ a / 128 % 2 * 128
bit_and-128 a = omega (arith, bit_and_step a 128, bit_and-64 (a / 2))

pub bit_and-le : (k a b : ℕ) → b < 2 ^ k → bit_and a b ≤ b
bit_and-le zero a b h = ground (arith, bit_and-zero a)
bit_and-le (suc k) a b h = omega (
  arith,
  bit_and_step a b,
  pow-suc 2 k,
  bit_and-le k (a / 2) (b / 2) (omega (arith, pow-suc 2 k)),
)

-- The high half of a byte.
pub bit_and-240 : (a : ℕ) → bit_and a 240 ≡ a / 16 % 16 * 16
bit_and-240 a =
    let by_two = bit_and_step a 240 in
    let by_four = bit_and_step (a / 2) 120 in
    let by_eight = bit_and_step (a / 2 / 2) 60 in
    let by_sixteen = bit_and_step (a / 2 / 2 / 2) 30 in
    omega (arith, by_two, by_four, by_eight, by_sixteen, bit_and-15 (a / 2 / 2 / 2 / 2))

-- The eight bits above the lowest four, and those above the lowest eight.
bit_and-4080 : (a : ℕ) → bit_and a 4080 ≡ a / 16 % 256 * 16
bit_and-4080 a =
    let by_two = bit_and_step a 4080 in
    let by_four = bit_and_step (a / 2) 2040 in
    let by_eight = bit_and_step (a / 2 / 2) 1020 in
    let by_sixteen = bit_and_step (a / 2 / 2 / 2) 510 in
    omega (arith, by_two, by_four, by_eight, by_sixteen, bit_and-255 (a / 2 / 2 / 2 / 2))

pub bit_and-65280 : (a : ℕ) → bit_and a 65280 ≡ a / 256 % 256 * 256
bit_and-65280 a =
    let by_two = bit_and_step a 65280 in
    let by_four = bit_and_step (a / 2) 32640 in
    let by_eight = bit_and_step (a / 2 / 2) 16320 in
    let by_sixteen = bit_and_step (a / 2 / 2 / 2) 8160 in
    omega (arith, by_two, by_four, by_eight, by_sixteen, bit_and-4080 (a / 2 / 2 / 2 / 2))

bit_and-511 : (a : ℕ) → bit_and a 511 ≡ a % 512
bit_and-511 a = omega (arith, bit_and_step a 511, bit_and-255 (a / 2))

bit_and-1023 : (a : ℕ) → bit_and a 1023 ≡ a % 1024
bit_and-1023 a = omega (arith, bit_and_step a 1023, bit_and-511 (a / 2))

bit_and-2047 : (a : ℕ) → bit_and a 2047 ≡ a % 2048
bit_and-2047 a = omega (arith, bit_and_step a 2047, bit_and-1023 (a / 2))

pub bit_and-4095 : (a : ℕ) → bit_and a 4095 ≡ a % 4096
bit_and-4095 a = omega (arith, bit_and_step a 4095, bit_and-2047 (a / 2))

-- An `|` of a number that is shifted and what fits below it is their sum.
bit_or-zero : (x n : ℕ) → x < suc n → bit_or x 0 ≡ x
bit_or-zero zero n below = refl
bit_or-zero (suc x) zero below = absurd (omega arith)
bit_or-zero (suc x) (suc n) below =
    let rest = bit_or-zero (suc x / 2) n (omega arith) in omega (arith, bit_or_step (suc x) 0, rest)

pub bit_or-shifted : (k q r : ℕ) → r < 2 ^ k → bit_or (q * 2 ^ k) r ≡ q * 2 ^ k + r
bit_or-shifted zero q r small =
    let none_below : r ≡ 0 = omega arith in
    rw none_below (omega (arith, bit_or-zero (q * 1) (q * 1) (omega arith)))
bit_or-shifted (suc k) q r small =
    let m = 2 ^ k in
    let whole : q * 2 ^ suc k ≡ 2 * (q * m) =
      ap (λ x. q * x) (pow-succ' 2 k) ∙ mul_left_comm q 2 m in
    let rest = bit_or-shifted k q (r / 2) (omega (arith, pow-suc 2 k)) in
    let half : 2 * (q * m) / 2 ≡ q * m = omega arith in
    let upper = ap (λ x. bit_or x (r / 2)) half in
    rw whole (omega (arith, bit_or_step (2 * (q * m)) r, rest, upper))
