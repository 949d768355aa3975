-- ===== src/Util/Strings.antt =====
-- include/erl/_impl/util/string.hpp and the character tests of include/erl/_impl/util/parser.hpp.
use cpp26_experiments.Base.{
  ℕ, zero, suc, ◌+◌, ◌*◌, ◌/◌, ◌%◌, ◌^◌, ◌<◌, ◌≡◌, ap, ◌∙◌, Bool, true, false, ◌&&◌, ◌||◌, ◌==◌,
  leb, ltb, ◌-◌, Bool-cases, ltb→lt, inl, inr, List, [], ◌∷◌, Bytes, arith, if◌then◌else◌,
}
use native.Mathlib.Nat.{pow-suc}

-- The loop of `utos`. `out` is held as the reversal at the end returns it, so that the source's
-- `+=` puts a digit in front. `fuel` bounds the rounds.
unfoldable pub utos_loop : ℕ → ℕ → Bytes → Bytes
utos_loop zero value out = out
utos_loop (suc fuel) value out =
    let rest = utos_loop fuel (value / 10) ((48 + value % 10) ∷ out) in
    if ltb 0 (value / 10) then rest else (48 + value % 10) ∷ out

-- A `std::uint64_t` has at most 20 digits.
unfoldable pub utos : ℕ → Bytes
utos value = utos_loop 20 value []

-- `result` is an `unsigned`, of 32 bits; a character is widened to it as its code less 48.
unfoldable pub stou_from : ℕ → Bytes → ℕ
stou_from result [] = result
stou_from result (c ∷ str) =
    stou_from ((result * 10 % 2 ^ 32 + (c + (2 ^ 32 - 48)) % 2 ^ 32) % 2 ^ 32) str

unfoldable pub stou : Bytes → ℕ
stou str = stou_from 0 str

unfoldable pub is_whitespace : ℕ → Bool
is_whitespace c = c == 32 || c == 9 || c == 10 || c == 13

unfoldable pub is_digit : ℕ → Bool
is_digit c = leb 48 c && leb c 57

abbrev pub all_of {ℓ} : {A : Type ℓ} → (A → Bool) → List A → Bool
all_of p [] = true
all_of p (x ∷ xs) = p x && all_of p xs

-- A leading minus is skipped, and the rest may be empty.
unfoldable pub is_integer : Bytes → Bool
is_integer [] = false
is_integer (c ∷ str) = if c == 45 then all_of is_digit str else is_digit c && all_of is_digit str

-- One digit read behind a number.
stou_digit :
    (m d : ℕ)
    → d < 10
    → (m % 2 ^ 32 * 10 % 2 ^ 32 + (48 + d + (2 ^ 32 - 48)) % 2 ^ 32) % 2 ^ 32
      ≡ (m * 10 + d) % 2 ^ 32
stou_digit m d h = omega arith

stou_digit_lem :
    (m d : ℕ) (out : Bytes)
    → d < 10
    → stou_from (m % 2 ^ 32) ((48 + d) ∷ out) ≡ stou_from ((m * 10 + d) % 2 ^ 32) out
unfolding stou_from
stou_digit_lem m d out h = ap (λ (n : ℕ). stou_from n out) (stou_digit m d h)

-- One round of the loop, given what the rounds after it come to.
stou_round :
    (fuel value : ℕ) (out : Bytes)
    → (0 < value / 10
        → stou_from 0 (utos_loop fuel (value / 10) ((48 + value % 10) ∷ out))
          ≡ stou_from (value % 2 ^ 32) out)
    → stou_from 0 (utos_loop (suc fuel) value out) ≡ stou_from (value % 2 ^ 32) out
unfolding utos_loop
stou_round fuel value out later = elim (Bool-cases (ltb 0 (value / 10))) [
  | inl more ↦ rw more (later (ltb→lt 0 (value / 10) more))
  | inr last ↦ rw last (
      stou_digit_lem 0 (value % 10) out (omega arith)
      ∙ ap (λ (n : ℕ). stou_from n out) (ground (arith, last)))
]

stou-utos_loop :
    (fuel value : ℕ) (out : Bytes)
    → value < 10 ^ suc fuel
    → stou_from 0 (utos_loop (suc fuel) value out) ≡ stou_from (value % 2 ^ 32) out
stou-utos_loop zero value out h = stou_round 0 value out (λ more. absurd (omega arith))
stou-utos_loop (suc fuel) value out h = stou_round (suc fuel) value out (λ more.
    stou-utos_loop fuel (value / 10) ((48 + value % 10) ∷ out)
      (omega (arith, pow-suc 10 (suc fuel)))
    ∙ stou_digit_lem (value / 10) (value % 10) out (omega arith)
    ∙ ap (λ (n : ℕ). stou_from (n % 2 ^ 32) out) (omega arith))

-- Reading back the digits of a 64-bit number gives the number modulo 2^32.
pub stou-utos : (value : ℕ) → value < 2 ^ 64 → stou (utos value) ≡ value % 2 ^ 32
unfolding stou utos stou_from
stou-utos value h = stou-utos_loop 19 value [] (omega arith)
