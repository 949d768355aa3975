-- ===== src/Reflect/Code.antt =====
-- `serialize` and `deserialize`, one clause for each specialisation of `Reflect`.
use cpp26_experiments.Base.{
  ℕ, zero, suc, ◌*◌, ◌%◌, ◌^◌, inl, inr, List, [], ◌∷◌, Option, none, some, ◌>>=◌, length, max,
}
use cpp26_experiments.Message.View.{View, read}
use cpp26_experiments.Reflect.Words.{Endian, little, big, object_bytes, of_object, byteswap}
use cpp26_experiments.Reflect.Types.{
  Ty, Tys, integral, pair, enumeration, variant, aggregate, range, array, pointer, nil, cons, El,
  Alt, Fields, index,
}
use cpp26_experiments.Reflect.Target.{Serializer}

-- `for (auto&& element : arg) erl::serialize(element, target);`
unfoldable pub each {ℓ} : {A S : Type ℓ} → (A → S → Option S) → List A → S → Option S
each f [] s = some s
each f (x ∷ xs) s = f x s >>= each f xs

-- The loop that reads so many elements.
unfoldable pub repeat_read {ℓ} : {A S : Type ℓ} → (S → Option (A × S)) → ℕ → S → Option (List A × S)
repeat_read f zero s = some ([], s)
repeat_read f (suc n) s = do (x, s') ← f s; (xs, s'') ← repeat_read f n s'; some (x ∷ xs, s'')

-- The `sizeof` of an array, which is never 0: an array has an element, and no type has the size 0.
abbrev pub array_size : ℕ → ℕ → ℕ
array_size n size = max 1 (size * n)

-- `endian` is the host's byte order, `size_of` the compiler's `sizeof`.
module _ (endian : Endian) (size_of : Ty → ℕ) (target : Serializer) where
  open target use {Target, write, reserve}

  unfoldable pub serialize_integral : ℕ → ℕ → Target → Option Target
  serialize_integral w arg t =
      let arg' : ℕ = elim endian [ little ↦ arg | big ↦ byteswap w arg ] in
      write (object_bytes endian w arg') t

  unfoldable mutual
    pub serialize : (ty : Ty) → El ty → Target → Option Target
    serialize (integral w) arg t = serialize_integral w arg t
    serialize (pair a b) arg t = serialize a arg.0 t >>= serialize b arg.1
    serialize (enumeration w) arg t = serialize_integral w arg t
    serialize (variant ts) arg t =
        serialize_integral 8 (index ts arg) t >>= serialize_alternative ts arg
    serialize (aggregate ts) arg t = serialize_fields ts arg t
    serialize (range ty) arg t = do
      let size = length arg % 2 ^ 32
      t' ← serialize_integral 4 size t
      t'' ← reserve (size_of ty * size) t'
      each (λ x. serialize ty x) arg t''
    serialize (array ty n) arg t = do
      t' ← reserve (array_size n (size_of ty)) t
      each (λ x. serialize ty x) arg t'
    serialize pointer arg t = serialize_integral 8 arg t

    pub serialize_alternative : (ts : Tys) → Alt ts → Target → Option Target
    serialize_alternative nil arg t = elim arg [ ]
    serialize_alternative (cons ty ts) (inl v) t = serialize ty v t
    serialize_alternative (cons ty ts) (inr v) t = serialize_alternative ts v t

    pub serialize_fields : (ts : Tys) → Fields ts → Target → Option Target
    serialize_fields nil arg t = some t
    serialize_fields (cons ty ts) arg t = serialize ty arg.0 t >>= serialize_fields ts arg.1

module _ (endian : Endian) where
  unfoldable pub deserialize_integral : ℕ → View → Option (ℕ × View)
  deserialize_integral w v = do
    (raw, v') ← read w v
    let value = of_object endian raw
    some (elim endian [ little ↦ value | big ↦ byteswap w value ], v')

  unfoldable mutual
    pub deserialize : (ty : Ty) → View → Option (El ty × View)
    deserialize (integral w) v = deserialize_integral w v
    deserialize (pair a b) v = do
      (x, v') ← deserialize a v
      (y, v'') ← deserialize b v'
      some ((x, y), v'')
    deserialize (enumeration w) v = deserialize_integral w v
    deserialize (variant ts) v = do
      (i, v') ← deserialize_integral 8 v
      deserialize_alternative ts i v'
    deserialize (aggregate ts) v = deserialize_fields ts v
    deserialize (range ty) v = do
      (size, v') ← deserialize_integral 4 v
      repeat_read (λ w. deserialize ty w) size v'
    deserialize (array ty n) v = repeat_read (λ w. deserialize ty w) n v
    deserialize pointer v = deserialize_integral 8 v

    -- The fold over the alternatives: the first whose place equals the index is read. For an
    -- index that no alternative has, the union is returned unset.
    pub deserialize_alternative : (ts : Tys) → ℕ → View → Option (Alt ts × View)
    deserialize_alternative nil i v = none
    deserialize_alternative (cons ty ts) zero v = do (x, v') ← deserialize ty v; some (inl x, v')
    deserialize_alternative (cons ty ts) (suc i) v = do
      (x, v') ← deserialize_alternative ts i v
      some (inr x, v')

    pub deserialize_fields : (ts : Tys) → View → Option (Fields ts × View)
    deserialize_fields nil v = some (tt, v)
    deserialize_fields (cons ty ts) v = do
      (x, v') ← deserialize ty v
      (xs, v'') ← deserialize_fields ts v'
      some ((x, xs), v'')
