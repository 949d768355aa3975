-- ===== src/Base/Bits.antt =====
-- Masks of low bits, `x & (2^k - 1)`, as the queues use them.
use Prim.Native.Nat.{
  ℕ, zero, suc, ◌+◌, ◌-◌, ◌*◌, ◌/◌, ◌%◌, ◌^◌, ◌≤◌, ◌<◌, min, bit_and, digits, bit_and-bitwise,
}
use mathlib.Core.Path.{◌≡◌, sym, ap, ◌∙◌}
use native.Mathlib.Omega.{arith}
use native.Mathlib.Nat.{pow-suc, mod-lt, div-add-mod', mod-eq_of_lt, add-mul-mod_self_right}

pub pow_two_pos : (k : ℕ) → 0 < 2 ^ k
pow_two_pos zero = omega arith
pow_two_pos (suc k) = omega (arith, pow-suc 2 k, pow_two_pos k)

-- One more digit below: the remainder by `2 * p` from the remainder by `p`.
mod-double : (p a : ℕ) → 0 < p → a % (2 * p) ≡ (a / 2) % p * 2 + a % 2
mod-double p a h =
    let r = a / 2 % p in
    let s = r * 2 + a % 2 in
    let small : r < p = mod-lt (a / 2) h in
    ap (λ (n : ℕ). n % (2 * p)) (omega (arith, div-add-mod' (a / 2) p))
    ∙ add-mul-mod_self_right s (a / 2 / p) (2 * p)
    ∙ mod-eq_of_lt {n = s} {m = 2 * p} (omega arith)

double_pow : (k : ℕ) → 2 ^ suc k ≡ 2 * 2 ^ k
double_pow k = omega (arith, pow-suc 2 k)

half_mask : (k : ℕ) → (2 ^ suc k - 1) / 2 ≡ 2 ^ k - 1
half_mask k = omega (arith, pow-suc 2 k, pow_two_pos k)

zero_mod : (k x : ℕ) → x ≤ 0 → 0 ≡ x % 2 ^ k
zero_mod k x h =
    sym (mod-eq_of_lt {n = 0} (pow_two_pos k)) ∙ ap (λ (y : ℕ). y % 2 ^ k) (omega arith)

-- The digits that `bit_and` takes, read against a mask.
masked : (k fuel x : ℕ) → x ≤ fuel → digits (λ b. zero) min fuel x (2 ^ k - 1) ≡ x % 2 ^ k
masked k zero x h = zero_mod k x h
masked k (suc fuel) zero h = zero_mod k 0 (omega arith)
masked zero (suc fuel) (suc x) h = omega (arith, masked 0 fuel (suc x / 2) (omega arith))
masked (suc k) (suc fuel) (suc x) h = omega (
  arith,
  pow-suc 2 k,
  pow_two_pos k,
  ap (digits (λ b. zero) min fuel (suc x / 2)) (half_mask k),
  masked k fuel (suc x / 2) (omega arith),
  mod-double (2 ^ k) (suc x) (pow_two_pos k),
  ap (λ (m : ℕ). suc x % m) (double_pow k),
)

pub bit_and-mask : (k a : ℕ) → bit_and a (2 ^ k - 1) ≡ a % 2 ^ k
bit_and-mask k a = bit_and-bitwise a (2 ^ k - 1) ∙ masked k a a (omega arith)
