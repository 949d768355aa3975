-- ===== src/Reflect/Encoding.antt =====
-- The wire format, stated as a function from values to byte strings, with no buffer and no host.
use cpp26_experiments.Base.{
  ℕ, ◌+◌, ◌*◌, ◌≤◌, inl, inr, List, [], ◌∷◌, ◌++◌, max, arith, Bytes, length, length-append,
}
use cpp26_experiments.Reflect.Code.{array_size}
use cpp26_experiments.Reflect.Words.{le_bytes, length-le_bytes}
use cpp26_experiments.Reflect.Types.{
  Ty, Tys, integral, pair, enumeration, variant, aggregate, range, array, pointer, nil, cons, El,
  Alt, Fields, index,
}

abbrev pub joined {ℓ} : {A : Type ℓ} → (A → Bytes) → List A → Bytes
joined f [] = []
joined f (x ∷ xs) = f x ++ joined f xs

abbrev pub total {ℓ} : {A : Type ℓ} → (A → ℕ) → List A → ℕ
total f [] = 0
total f (x ∷ xs) = f x + total f xs

unfoldable mutual
  pub encode : (ty : Ty) → El ty → Bytes
  encode (integral w) v = le_bytes w v
  encode (pair a b) v = encode a v.0 ++ encode b v.1
  encode (enumeration w) v = le_bytes w v
  encode (variant ts) v = le_bytes 8 (index ts v) ++ encode_alternative ts v
  encode (aggregate ts) v = encode_fields ts v
  encode (range ty) v = le_bytes 4 (length v) ++ joined (λ x. encode ty x) v
  encode (array ty n) v = joined (λ x. encode ty x) v
  encode pointer v = le_bytes 8 v

  pub encode_alternative : (ts : Tys) → Alt ts → Bytes
  encode_alternative nil v = elim v [ ]
  encode_alternative (cons ty ts) (inl v) = encode ty v
  encode_alternative (cons ty ts) (inr v) = encode_alternative ts v

  pub encode_fields : (ts : Tys) → Fields ts → Bytes
  encode_fields nil v = []
  encode_fields (cons ty ts) v = encode ty v.0 ++ encode_fields ts v.1

-- The room that `serialize` may use: the bytes themselves, and what it reserves ahead.
module _ (size_of : Ty → ℕ) where
  unfoldable mutual
    pub footprint : (ty : Ty) → El ty → ℕ
    footprint (integral w) v = w
    footprint (pair a b) v = footprint a v.0 + footprint b v.1
    footprint (enumeration w) v = w
    footprint (variant ts) v = 8 + footprint_alternative ts v
    footprint (aggregate ts) v = footprint_fields ts v
    footprint (range ty) v = 4 + max (size_of ty * length v) (total (λ x. footprint ty x) v)
    footprint (array ty n) v = max (array_size n (size_of ty)) (total (λ x. footprint ty x) v)
    footprint pointer v = 8

    pub footprint_alternative : (ts : Tys) → Alt ts → ℕ
    footprint_alternative nil v = elim v [ ]
    footprint_alternative (cons ty ts) (inl v) = footprint ty v
    footprint_alternative (cons ty ts) (inr v) = footprint_alternative ts v

    pub footprint_fields : (ts : Tys) → Fields ts → ℕ
    footprint_fields nil v = 0
    footprint_fields (cons ty ts) v = footprint ty v.0 + footprint_fields ts v.1

  length-joined {ℓ} :
      {A : Type ℓ} (f : A → Bytes) (g : A → ℕ) (xs : List A)
      → ((x : A) → length (f x) ≤ g x)
      → length (joined f xs) ≤ total g xs
  length-joined f g [] h = omega arith
  length-joined f g (x ∷ xs) h =
      omega (arith, length-append (f x) (joined f xs), h x, length-joined f g xs h)

  mutual
    unfolding encode footprint

    length-encode : (ty : Ty) (v : El ty) → length (encode ty v) ≤ footprint ty v
    length-encode (integral w) v = omega (arith, length-le_bytes w v)
    length-encode (pair a b) v = omega (
      arith,
      length-append (encode a v.0) (encode b v.1),
      length-encode a v.0,
      length-encode b v.1,
    )
    length-encode (enumeration w) v = omega (arith, length-le_bytes w v)
    length-encode (variant ts) v = omega (
      arith,
      length-append (le_bytes 8 (index ts v)) (encode_alternative ts v),
      length-encode_alternative ts v,
    )
    length-encode (aggregate ts) v = length-encode_fields ts v
    length-encode (range ty) v = omega (
      arith,
      length-append (le_bytes 4 (length v)) (joined (λ x. encode ty x) v),
      length-joined (λ x. encode ty x) (λ x. footprint ty x) v (λ x. length-encode ty x),
    )
    length-encode (array ty n) v =
        omega (
          arith,
          length-joined (λ x. encode ty x) (λ x. footprint ty x) v (λ x. length-encode ty x),
        )
    length-encode pointer v = omega (arith, length-le_bytes 8 v)

    length-encode_alternative :
        (ts : Tys) (v : Alt ts) → length (encode_alternative ts v) ≤ footprint_alternative ts v
    length-encode_alternative nil v = elim v [ ]
    length-encode_alternative (cons ty ts) (inl v) = length-encode ty v
    length-encode_alternative (cons ty ts) (inr v) = length-encode_alternative ts v

    length-encode_fields :
        (ts : Tys) (v : Fields ts) → length (encode_fields ts v) ≤ footprint_fields ts v
    length-encode_fields nil v = omega arith
    length-encode_fields (cons ty ts) v = omega (
      arith,
      length-append (encode ty v.0) (encode_fields ts v.1),
      length-encode ty v.0,
      length-encode_fields ts v.1,
    )

  -- The bytes themselves are within the room.
  pub length-encode-le-footprint : (ty : Ty) (v : El ty) → length (encode ty v) ≤ footprint ty v
  length-encode-le-footprint ty v = length-encode ty v
