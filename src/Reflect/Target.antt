-- ===== src/Reflect/Target.antt =====
-- What `serialize` asks of the buffer that it writes to: the concept `Serializer`, and the laws
-- that make it the byte string written so far.
use cpp26_experiments.Base.{ℕ, ◌+◌, ◌≤◌, ◌<◌, ◌≡◌, ◌++◌, Option, some, Bytes, length}

pub record Serializer : Type 1 where
  pub Target : Type 0
  pub write : Bytes → Target → Option Target
  pub reserve : ℕ → Target → Option Target
  pub Holds : Target → Bytes → Type 0
  -- how many bytes the buffer can take
  pub limit : ℕ
  pub write_law :
      (t : Target) (bs input : Bytes)
      → Holds t bs
      → length bs + length input ≤ limit
      → (t' : Target) × (write input t ≡ some t') × Holds t' (bs ++ input)
  -- `reserve` is not called where nothing is written and no room is asked for.
  pub reserve_law :
      (t : Target) (bs : Bytes) (n : ℕ)
      → Holds t bs
      → length bs + n ≤ limit
      → 0 < length bs + n
      → (t' : Target) × (reserve n t ≡ some t') × Holds t' bs
