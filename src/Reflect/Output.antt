-- ===== src/Reflect/Output.antt =====
-- include/erl/reflect: `serialize` against the wire format, for any buffer that obeys the laws of a
-- `Serializer`.
use cpp26_experiments.Base.{
  ℕ, ◌+◌, ◌*◌, ◌%◌, ◌^◌, ◌≤◌, ◌<◌, ◌≡◌, refl, subst, ap, ◌∙◌, inl, inr, List, [], ◌∷◌, ◌++◌, Option,
  some, ◌>>=◌, max, arith, Bytes, length, length-append, append_assoc, append-nil,
}
use mathlib.Core.List.{reverse, reverse-reverse}
use cpp26_experiments.Reflect.Words.{
  Endian, little, big, le_bytes, object_bytes, byteswap, length-le_bytes, le_bytes-byteswap,
}
use cpp26_experiments.Reflect.Types.{
  Ty, Tys, integral, pair, enumeration, variant, aggregate, range, array, pointer, nil, cons, El,
  Alt, Fields, index,
}
use cpp26_experiments.Reflect.Target.{Serializer}
use cpp26_experiments.Reflect.Code.{
  array_size, each, serialize_integral, serialize, serialize_alternative, serialize_fields,
}
use cpp26_experiments.Reflect.Encoding.{
  joined, total, encode, encode_alternative, encode_fields, footprint, footprint_alternative,
  footprint_fields, length-encode-le-footprint,
}

-- A big-endian host swaps first, and so has the little-endian bytes in memory.
swapped_object : (w v : ℕ) → object_bytes big w (byteswap w v) ≡ le_bytes w v
unfolding object_bytes
swapped_object w v = ap reverse (le_bytes-byteswap w v) ∙ reverse-reverse (le_bytes w v)

narrowed_product : (k n : ℕ) → k * (n % 2 ^ 32) ≤ k * n
narrowed_product k n = grind arith

module _ (target : Serializer) where
  open target use {Target, write, reserve, Holds, limit, write_law, reserve_law}

  -- The step `f` succeeds on a target that holds `bs` with room to spare, and appends `out`.
  abbrev pub Appends : (Target → Option Target) → ℕ → Bytes → Type 0
  Appends f room out =
      (t : Target) (bs : Bytes)
      → Holds t bs
      → length bs + room ≤ limit
      → (t' : Target) × (f t ≡ some t') × Holds t' (bs ++ out)

  pub Appends-nil : Appends (λ t. some t) 0 []
  Appends-nil t bs h fits = (t, refl, rw append-nil h)

  pub Appends-then :
      (f g : Target → Option Target) (m n : ℕ) (xs ys : Bytes)
      → length xs ≤ m
      → Appends f m xs
      → Appends g n ys
      → Appends (λ t. f t >>= g) (m + n) (xs ++ ys)
  Appends-then f g m n xs ys narrow first second t bs h fits =
      let (t', e, h') = first t bs h (omega arith) in
      let (t'', e', h'') = second t' (bs ++ xs) h' (omega (arith, length-append bs xs)) in
      (t'', rw e e', rw (← append_assoc) h'')

  pub Appends-each :
      {A : Type 0} (f : A → Target → Option Target) (room : A → ℕ) (out : A → Bytes) (xs : List A)
      → ((x : A) → length (out x) ≤ room x)
      → ((x : A) → Appends (f x) (room x) (out x))
      → Appends (each f xs) (total room xs) (joined out xs)
  unfolding each
  Appends-each f room out [] narrow steps = Appends-nil
  Appends-each f room out (x ∷ xs) narrow steps =
      Appends-then (f x) (each f xs) (room x) (total room xs) (out x) (joined out xs) (narrow x)
        (steps x) (Appends-each f room out xs narrow steps)

  Appends-reserve :
      (g : Target → Option Target) (k n : ℕ) (out : Bytes)
      → 0 < k
      → Appends g n out
      → Appends (λ t. reserve k t >>= g) (max k n) out
  Appends-reserve g k n out some_room step t bs h fits =
      let (t', e, h') = reserve_law t bs k h (omega arith) (omega arith) in
      let (t'', e', h'') = step t' bs h' (omega arith) in (t'', rw e e', h'')

  -- Behind a first part that writes something, no room may be asked for.
  Appends-reserve_behind :
      (first g : Target → Option Target) (k m n : ℕ) (xs out : Bytes)
      → length xs ≤ m
      → 0 < length xs
      → Appends first m xs
      → Appends g n out
      → Appends (λ t. first t >>= (λ t'. reserve k t' >>= g)) (m + max k n) (xs ++ out)
  Appends-reserve_behind first g k m n xs out narrow some_bytes start step t bs h fits =
      let width = length-append bs xs in
      let (t', e, h') = start t bs h (omega arith) in
      let (t'', e', h'') = reserve_law t' (bs ++ xs) k h' (omega arith) (omega arith) in
      let (t''', e'', h''') = step t'' (bs ++ xs) h'' (omega arith) in
      (t''', rw e (rw e' e''), rw (← append_assoc) h''')

  Appends-mono :
      (f : Target → Option Target) (m n : ℕ) (out : Bytes)
      → m ≤ n
      → Appends f m out
      → Appends f n out
  Appends-mono f m n out le step t bs h fits = step t bs h (omega arith)

  module _ (endian : Endian) (size_of : Ty → ℕ) where
    Appends-integral :
        (w v : ℕ) → Appends (serialize_integral endian size_of target w v) w (le_bytes w v)
    unfolding serialize_integral object_bytes
    Appends-integral w v t bs h fits =
        let (t', e, h') = write_law t bs (le_bytes w v) h (omega (arith, length-le_bytes w v)) in
        (t', host endian t' e, h')
      where
        host :
            (host_order : Endian) (t' : Target)
            → write (le_bytes w v) t ≡ some t'
            → serialize_integral host_order size_of target w v t ≡ some t'
        host little t' e = e
        host big t' e = ap (λ bytes. write bytes t) (swapped_object w v) ∙ e

    -- The size is narrowed to 32 bits, which its four bytes do not show.
    le_bytes-narrowed : (n : ℕ) → le_bytes 4 (n % 2 ^ 32) ≡ le_bytes 4 n
    le_bytes-narrowed n = ground arith

    abbrev behind_header : (Target → Option Target) → ℕ → ℕ → Target → Option Target
    behind_header f k size t =
        serialize_integral endian size_of target 4 (size % 2 ^ 32) t
        >>= (λ t'. reserve (k * (size % 2 ^ 32)) t' >>= f)

    Appends-range :
        (f : Target → Option Target) (k size room : ℕ) (out : Bytes)
        → Appends f room out
        → Appends (behind_header f k size) (4 + max (k * size) room) (le_bytes 4 size ++ out)
    Appends-range f k size room out step =
        Appends-mono (behind_header f k size) (4 + max (k * (size % 2 ^ 32)) room)
          (4 + max (k * size) room) _ (omega (arith, narrowed_product k size))
          (subst
            (λ (header : Bytes).
              Appends (behind_header f k size) (4 + max (k * (size % 2 ^ 32)) room) (header ++ out))
            (le_bytes-narrowed size)
            (Appends-reserve_behind (serialize_integral endian size_of target 4 (size % 2 ^ 32)) f
              (k * (size % 2 ^ 32)) 4 room (le_bytes 4 (size % 2 ^ 32)) out
              (omega (arith, length-le_bytes 4 (size % 2 ^ 32)))
              (omega (arith, length-le_bytes 4 (size % 2 ^ 32)))
              (Appends-integral 4 (size % 2 ^ 32)) step))

    mutual
      unfolding serialize encode footprint

      serialize-Appends :
          (ty : Ty) (v : El ty)
          → Appends (serialize endian size_of target ty v) (footprint size_of ty v) (encode ty v)
      serialize-Appends (integral w) v = Appends-integral w v
      serialize-Appends (pair a b) v =
          Appends-then (serialize endian size_of target a v.0)
            (serialize endian size_of target b v.1) _ _ (encode a v.0) (encode b v.1)
            (length-encode-le-footprint size_of a v.0) (serialize-Appends a v.0)
            (serialize-Appends b v.1)
      serialize-Appends (enumeration w) v = Appends-integral w v
      serialize-Appends (variant ts) v =
          Appends-then (serialize_integral endian size_of target 8 (index ts v))
            (serialize_alternative endian size_of target ts v) 8 _ (le_bytes 8 (index ts v)) _
            (omega (arith, length-le_bytes 8 (index ts v))) (Appends-integral 8 (index ts v))
            (serialize_alternative-Appends ts v)
      serialize-Appends (aggregate ts) v = serialize_fields-Appends ts v
      serialize-Appends (range ty) v =
          Appends-range (each (λ x. serialize endian size_of target ty x) v) (size_of ty) (length v)
            _ _
            (Appends-each (λ x. serialize endian size_of target ty x) (λ x. footprint size_of ty x)
              (λ x. encode ty x) v (λ x. length-encode-le-footprint size_of ty x)
              (λ x. serialize-Appends ty x))
      serialize-Appends (array ty n) v =
          Appends-reserve (each (λ x. serialize endian size_of target ty x) v)
            (array_size n (size_of ty)) _ _ (omega arith)
            (Appends-each (λ x. serialize endian size_of target ty x) (λ x. footprint size_of ty x)
              (λ x. encode ty x) v (λ x. length-encode-le-footprint size_of ty x)
              (λ x. serialize-Appends ty x))
      serialize-Appends pointer v = Appends-integral 8 v

      serialize_alternative-Appends :
          (ts : Tys) (v : Alt ts)
          → Appends
              (serialize_alternative endian size_of target ts v)
              (footprint_alternative size_of ts v)
              (encode_alternative ts v)
      serialize_alternative-Appends nil v = elim v [ ]
      serialize_alternative-Appends (cons ty ts) (inl v) = serialize-Appends ty v
      serialize_alternative-Appends (cons ty ts) (inr v) = serialize_alternative-Appends ts v

      serialize_fields-Appends :
          (ts : Tys) (v : Fields ts)
          → Appends
              (serialize_fields endian size_of target ts v)
              (footprint_fields size_of ts v)
              (encode_fields ts v)
      serialize_fields-Appends nil v = Appends-nil
      serialize_fields-Appends (cons ty ts) v =
          Appends-then (serialize endian size_of target ty v.0)
            (serialize_fields endian size_of target ts v.1) _ _ (encode ty v.0)
            (encode_fields ts v.1) (length-encode-le-footprint size_of ty v.0)
            (serialize-Appends ty v.0) (serialize_fields-Appends ts v.1)

    -- For a target that obeys the laws of a Serializer, holds some bytes and has room for
    -- the value, serialize succeeds and appends exactly the wire format of the value, on a
    -- host of either byte order.
    pub serialize_lem :
        (ty : Ty) (v : El ty) (t : Target) (bs : Bytes)
        → Holds t bs
        → length bs + footprint size_of ty v ≤ limit
        → (t' : Target) × (serialize endian size_of target ty v t ≡ some t')
          × Holds t' (bs ++ encode ty v)
    serialize_lem = serialize-Appends
