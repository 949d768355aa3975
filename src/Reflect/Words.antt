-- ===== src/Reflect/Words.antt =====
-- The object representation of an integer on either kind of host, and `std::byteswap`.
use mathlib.Core.List.{reverse, reverse-cons}
use native.Mathlib.Nat.{pow-suc}
use cpp26_experiments.Base.{
  ℕ, zero, suc, ◌+◌, ◌*◌, ◌/◌, ◌%◌, ◌^◌, ◌<◌, ◌≡◌, refl, ap, ap₂, ◌∙◌, [], ◌∷◌, arith, Bytes,
  length, length-append, All, All-append,
}

-- `std::endian::native`
pub data Endian : Type 0 where
  little big : Endian

-- The low `w` bytes of a number, lowest first.
abbrev pub le_bytes : ℕ → ℕ → Bytes
le_bytes zero n = []
le_bytes (suc w) n = n % 256 ∷ le_bytes w (n / 256)

abbrev pub of_le : Bytes → ℕ
of_le [] = 0
of_le (b ∷ bs) = b + 256 * of_le bs

-- How a `w`-byte integer lies in memory, and the integer that lies there.
unfoldable pub object_bytes : Endian → ℕ → ℕ → Bytes
object_bytes little w n = le_bytes w n
object_bytes big w n = reverse (le_bytes w n)

unfoldable pub of_object : Endian → Bytes → ℕ
of_object little bs = of_le bs
of_object big bs = of_le (reverse bs)

unfoldable pub byteswap : ℕ → ℕ → ℕ
byteswap w n = of_le (reverse (le_bytes w n))

abbrev pub IsByte : ℕ → Type 0
IsByte b = b < 256

pub length-le_bytes : (w n : ℕ) → length (le_bytes w n) ≡ w
length-le_bytes zero n = refl
length-le_bytes (suc w) n = ap suc (length-le_bytes w (n / 256))

pub le_bytes-IsByte : (w n : ℕ) → All IsByte (le_bytes w n)
le_bytes-IsByte zero n = tt
le_bytes-IsByte (suc w) n = (omega arith, le_bytes-IsByte w (n / 256))

-- Reading back gives the number, up to the width.
pub of_le-le_bytes : (w n : ℕ) → n < 256 ^ w → of_le (le_bytes w n) ≡ n
of_le-le_bytes zero n h = omega arith
of_le-le_bytes (suc w) n h =
    omega (arith, pow-suc 256 w, of_le-le_bytes w (n / 256) (omega (arith, pow-suc 256 w)))

pub le_bytes-of_le : (bs : Bytes) → All IsByte bs → le_bytes (length bs) (of_le bs) ≡ bs
le_bytes-of_le [] h = refl
le_bytes-of_le (b ∷ bs) h =
    ap₂ ◌∷◌ (omega (arith, h.0))
      (ap (le_bytes (length bs)) (omega (arith, h.0)) ∙ le_bytes-of_le bs h.1)

length-reverse : (xs : Bytes) → length (reverse xs) ≡ length xs
length-reverse [] = refl
length-reverse (x ∷ xs) =
    omega
      (arith, ap length (reverse-cons x xs), length-append (reverse xs) (x ∷ []), length-reverse xs)

reverse-IsByte : (xs : Bytes) → All IsByte xs → All IsByte (reverse xs)
reverse-IsByte [] h = tt
reverse-IsByte (x ∷ xs) h =
    rw (reverse-cons x xs)
      (All-append IsByte (reverse xs) (x ∷ []) (reverse-IsByte xs h.1) (h.0, tt))

-- Swapping twice, or swapping on a big-endian host, leaves the little-endian bytes.
pub le_bytes-byteswap : (w n : ℕ) → le_bytes w (byteswap w n) ≡ reverse (le_bytes w n)
unfolding byteswap
le_bytes-byteswap w n =
    ap (λ (k : ℕ). le_bytes k (of_le (reverse (le_bytes w n))))
      (omega (arith, length-reverse (le_bytes w n), length-le_bytes w n))
    ∙ le_bytes-of_le (reverse (le_bytes w n)) (reverse-IsByte _ (le_bytes-IsByte w n))
