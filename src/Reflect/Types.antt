-- ===== src/Reflect/Types.antt =====
-- The types that a specialisation of `Reflect` covers, and their values.
use cpp26_experiments.Base.{ℕ, suc, ◌<◌, ◌^◌, ◌≡◌, ◌⊎◌, inl, inr, List, All, length}

mutual
  pub data Ty : Type 0 where
    -- an integral type of so many bytes (`bool` and `char` too)
    integral : ℕ → Ty
    pair : Ty → Ty → Ty
    -- an enumeration over an underlying type of so many bytes
    enumeration : ℕ → Ty
    variant : Tys → Ty
    aggregate : Tys → Ty
    -- a container that is built from an initializer list (`std::string` and `std::vector`)
    range : Ty → Ty
    array : Ty → ℕ → Ty
    -- a pointer to an object or to a function, as a `std::uintptr_t`
    pointer : Ty

  pub data Tys : Type 0 where
    nil : Tys
    cons : Ty → Tys → Tys

-- An integer is its bit pattern, an address its number; the place in `Alt` is `index()`.
abbrev mutual
  pub El : Ty → Type 0
  El (integral w) = ℕ
  El (pair a b) = El a × El b
  El (enumeration w) = ℕ
  El (variant ts) = Alt ts
  El (aggregate ts) = Fields ts
  El (range t) = List (El t)
  El (array t n) = List (El t)
  El pointer = ℕ

  pub Alt : Tys → Type 0
  Alt nil = ⊥
  Alt (cons t ts) = El t ⊎ Alt ts

  pub Fields : Tys → Type 0
  Fields nil = Unit
  Fields (cons t ts) = El t × Fields ts

-- `std::variant::index()`
abbrev pub index : (ts : Tys) → Alt ts → ℕ
index nil v = elim v [ ]
index (cons t ts) (inl v) = 0
index (cons t ts) (inr v) = suc (index ts v)

-- The values that the C++ type has: integers within their width, arrays of their length, and
-- containers whose size a `std::uint32_t` can hold and indices that a
-- `std::size_t` can.
abbrev mutual
  pub Fits : (t : Ty) → El t → Type 0
  Fits (integral w) v = v < 256 ^ w
  Fits (pair a b) v = Fits a v.0 × Fits b v.1
  Fits (enumeration w) v = v < 256 ^ w
  Fits (variant ts) v = (index ts v < 256 ^ 8) × FitsAlt ts v
  Fits (aggregate ts) v = FitsFields ts v
  Fits (range t) v = (length v < 2 ^ 32) × All (λ x. Fits t x) v
  Fits (array t n) v = (length v ≡ n) × All (λ x. Fits t x) v
  Fits pointer v = v < 256 ^ 8

  pub FitsAlt : (ts : Tys) → Alt ts → Type 0
  FitsAlt nil v = ⊥
  FitsAlt (cons t ts) (inl v) = Fits t v
  FitsAlt (cons t ts) (inr v) = FitsAlt ts v

  pub FitsFields : (ts : Tys) → Fields ts → Type 0
  FitsFields nil v = Unit
  FitsFields (cons t ts) v = Fits t v.0 × FitsFields ts v.1
