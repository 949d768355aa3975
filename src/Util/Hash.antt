-- ===== src/Util/Hash.antt =====
-- include/erl/_impl/util/hash.hpp: FNV-1a.
use cpp26_experiments.Base.{ℕ, ◌*◌, ◌%◌, ◌^◌, [], ◌∷◌, Bytes, bit_xor}

-- One byte of `FNV1a::operator()`. A `char` is widened as an ASCII code, without a sign.
unfoldable pub mix : ℕ → ℕ → ℕ
mix state byte = (bit_xor state byte * 0x100000001b3) % 2 ^ 64

unfoldable pub absorb : ℕ → Bytes → ℕ
absorb state [] = state
absorb state (byte ∷ bytes) = absorb (mix state byte) bytes

-- A fresh `FNV1a`, one text, and `finalize`.
unfoldable pub hash : Bytes → ℕ
hash str = absorb 0xcbf29ce484222325 str

-- The 32-bit function `fnv1a`.
unfoldable pub fnv1a_from : ℕ → Bytes → ℕ
fnv1a_from state [] = state
fnv1a_from state (byte ∷ bytes) = fnv1a_from ((bit_xor state byte * 2166136261) % 2 ^ 32) bytes

unfoldable pub fnv1a : Bytes → ℕ
fnv1a str = fnv1a_from 16777619 str
