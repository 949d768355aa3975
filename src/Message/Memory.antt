-- ===== src/Message/Memory.antt =====
-- Raw memory as `memcpy`, `malloc` and `realloc` see it. A cell that was never written is `none`.
use cpp26_experiments.Base.{
  ℕ, ◌+◌, ◌-◌, ◌≤◌, ◌≡◌, List, ◌++◌, Option, none, some, arith, leb, if◌then◌else◌, length, take,
  drop, replicate, length-append, length-take, length-drop, length-replicate, take_append,
  take_prefix, take-take, append_assoc, ◌∙◌,
}

abbrev pub Cell : Type 0
Cell = Option ℕ

-- A block that `malloc(n)` returns: nothing in it is written yet.
abbrev pub malloc : ℕ → List Cell
malloc n = replicate n none

-- `realloc(p, n)` keeps what fits.
abbrev pub realloc : List Cell → ℕ → List Cell
realloc block n = take n block ++ replicate (n - length block) none

-- The `n` cells from `offset` on, as `memcpy` reads them; past the end is undefined.
unfoldable pub load : List Cell → ℕ → ℕ → Option (List Cell)
load block offset n =
    if leb (offset + n) (length block) then some (take n (drop offset block)) else none

-- `memcpy(block + offset, source, …)`; past the end is undefined.
unfoldable pub store : List Cell → ℕ → List Cell → Option (List Cell)
store block offset source =
    if leb (offset + length source) (length block)
    then some (take offset block ++ (source ++ drop (offset + length source) block))
    else none

-- What `store` leaves in a block that is long enough.
pub stored : List Cell → ℕ → List Cell → List Cell
stored block offset source = take offset block ++ (source ++ drop (offset + length source) block)

pub store-stored :
    (block : List Cell) (offset : ℕ) (source : List Cell)
    → offset + length source ≤ length block
    → store block offset source ≡ some (stored block offset source)
unfolding store stored
store-stored block offset source h = ground arith

pub length-stored :
    (block : List Cell) (offset : ℕ) (source : List Cell)
    → offset + length source ≤ length block
    → length (stored block offset source) ≡ length block
unfolding stored
length-stored block offset source h = omega (
  arith,
  length-append (take offset block) (source ++ drop (offset + length source) block),
  length-append source (drop (offset + length source) block),
  length-take offset block,
  length-drop (offset + length source) block,
)

pub take-stored :
    (block : List Cell) (offset : ℕ) (source : List Cell)
    → offset + length source ≤ length block
    → take (offset + length source) (stored block offset source) ≡ take offset block ++ source
unfolding stored
take-stored block offset source h = rw (← append_assoc) (
    take_append _ (take offset block ++ source) _
      (omega (arith, length-append (take offset block) source, length-take offset block)))

pub length-realloc : (block : List Cell) (n : ℕ) → length (realloc block n) ≡ n
length-realloc block n = omega (
  arith,
  length-append (take n block) (replicate (n - length block) none),
  length-take n block,
  length-replicate {A = Cell} (n - length block) none,
)

pub take-realloc :
    (block : List Cell) (k n : ℕ)
    → k ≤ n
    → k ≤ length block
    → take k (realloc block n) ≡ take k block
take-realloc block k n h h' =
    take_prefix k (take n block) _ (omega (arith, length-take n block)) ∙ take-take k n block h
