-- ===== src/Reflect/RoundTrip.antt =====
-- include/erl/reflect: `deserialize` against the wire format.
use mathlib.Core.List.{reverse, reverse-reverse}
use cpp26_experiments.Base.{
  ℕ, ◌^◌, ◌<◌, ◌≡◌, sym, ap, ◌∙◌, inl, inr, List, [], ◌∷◌, ◌++◌, Option, some, ◌>>=◌, Bytes, length,
  append_assoc, append-nil, All, subst,
}
use cpp26_experiments.Message.View.{View, between, read-between}
use cpp26_experiments.Reflect.Words.{
  Endian, little, big, le_bytes, of_le, of_object, byteswap, length-le_bytes, of_le-le_bytes,
  le_bytes-byteswap,
}
use cpp26_experiments.Reflect.Types.{
  Ty, Tys, integral, pair, enumeration, variant, aggregate, range, array, pointer, nil, cons, El,
  Alt, Fields, index, Fits, FitsAlt, FitsFields,
}
use cpp26_experiments.Reflect.Code.{
  repeat_read, deserialize_integral, deserialize, deserialize_alternative, deserialize_fields,
}
use cpp26_experiments.Reflect.Encoding.{joined, encode, encode_alternative, encode_fields}

-- The reader `f` takes `out` from the front of the unread bytes and returns `x`.
abbrev pub Reads : {A : Type 0} → (View → Option (A × View)) → Bytes → A → Type 0
Reads f out x =
    (before after : Bytes)
    → f (between before (out ++ after)) ≡ some (x, between (before ++ out) after)

-- Two readers in turn.
Reads-then :
    {A B C : Type 0} (f : View → Option (A × View)) (g : A → View → Option (B × View))
    (join : A → B → C) (xs ys : Bytes) (x : A) (y : B)
    → Reads f xs x
    → Reads (g x) ys y
    → Reads
        (λ v.
          f v >>= (λ (p : A × View). g p.0 p.1 >>= (λ (q : B × View). some (join p.0 q.0, q.1))))
        (xs ++ ys)
        (join x y)
Reads-then f g join xs ys x y first second before after = rw (
  append_assoc xs ys after,
  first before (ys ++ after),
  second (before ++ xs) after,
  append_assoc before xs ys,
)

-- A header `x`, and the reader that it selects.
Reads-bind :
    {A B : Type 0} (f : View → Option (A × View)) (g : A → View → Option (B × View)) (xs ys : Bytes)
    (x : A) (y : B)
    → Reads f xs x
    → Reads (g x) ys y
    → Reads (λ v. f v >>= (λ (p : A × View). g p.0 p.1)) (xs ++ ys) y
Reads-bind f g xs ys x y first second before after = rw (
  append_assoc xs ys after,
  first before (ys ++ after),
  second (before ++ xs) after,
  append_assoc before xs ys,
)

Reads-repeat :
    {A : Type 0} (f : View → Option (A × View)) (out : A → Bytes) (P : A → Type 0) (xs : List A)
    → All P xs
    → ((x : A) → P x → Reads f (out x) x)
    → Reads (repeat_read f (length xs)) (joined out xs) xs
unfolding repeat_read
Reads-repeat f out P [] h step = λ before after. rw append-nil
Reads-repeat f out P (x ∷ xs) h step =
    Reads-then f (λ _. repeat_read f (length xs)) ◌∷◌ (out x) (joined out xs) x xs (step x h.0)
      (Reads-repeat f out P xs h.1 step)

-- Swapping the bytes twice gives the number back.
pub byteswap-byteswap : (w n : ℕ) → n < 256 ^ w → byteswap w (byteswap w n) ≡ n
byteswap-byteswap w n h =
    unfold byteswap in
    ap (λ bytes. of_le (reverse bytes)) (le_bytes-byteswap w n)
    ∙ ap of_le (reverse-reverse (le_bytes w n))
    ∙ of_le-le_bytes w n h

module _ (endian : Endian) where
  Reads-integral : (w n : ℕ) → n < 256 ^ w → Reads (deserialize_integral endian w) (le_bytes w n) n
  unfolding deserialize_integral of_object byteswap
  Reads-integral w n h before after =
      rw (read-between before (le_bytes w n) after w (sym (length-le_bytes w n)))
        (ap (λ (value : ℕ). some (value, between (before ++ le_bytes w n) after)) (host endian))
    where
      host :
          (host_order : Endian)
          → let value = of_object host_order (le_bytes w n) in
            elim host_order as (λ _. ℕ) [ little ↦ value | big ↦ byteswap w value ] ≡ n
      host little = of_le-le_bytes w n h
      host big = byteswap-byteswap w n h

  -- The alternative with index 0 is read, or one of the others.
  Reads-cons :
      (ty : Ty) (ts : Tys)
      → ((v : El ty) → Fits ty v → Reads (deserialize endian ty) (encode ty v) v)
      → ((v : Alt ts)
          → FitsAlt ts v
          → Reads (deserialize_alternative endian ts (index ts v)) (encode_alternative ts v) v)
      → (v : Alt (cons ty ts)) → FitsAlt (cons ty ts) v
      → Reads
          (deserialize_alternative endian (cons ty ts) (index (cons ty ts) v))
          (encode_alternative (cons ty ts) v)
          v
  unfolding deserialize encode
  Reads-cons ty ts here there (inl v) h before after = rw (here v h before after)
  Reads-cons ty ts here there (inr v) h before after = rw (there v h before after)

  mutual
    unfolding deserialize encode

    deserialize-Reads :
        (ty : Ty) (v : El ty) → Fits ty v → Reads (deserialize endian ty) (encode ty v) v
    deserialize-Reads (integral w) v h = Reads-integral w v h
    deserialize-Reads (pair a b) v h =
        Reads-then (deserialize endian a) (λ _. deserialize endian b) (λ x y. (x, y)) (encode a v.0)
          (encode b v.1) v.0 v.1 (deserialize-Reads a v.0 h.0) (deserialize-Reads b v.1 h.1)
    deserialize-Reads (enumeration w) v h = Reads-integral w v h
    deserialize-Reads (variant ts) v h =
        Reads-bind (deserialize_integral endian 8) (deserialize_alternative endian ts)
          (le_bytes 8 (index ts v)) (encode_alternative ts v) (index ts v) v
          (Reads-integral 8 (index ts v) h.0) (deserialize_alternative-Reads ts v h.1)
    deserialize-Reads (aggregate ts) v h = deserialize_fields-Reads ts v h
    deserialize-Reads (range ty) v h =
        Reads-bind (deserialize_integral endian 4) (repeat_read (λ w. deserialize endian ty w))
          (le_bytes 4 (length v)) _ (length v) v (Reads-integral 4 (length v) h.0)
          (Reads-repeat (λ w. deserialize endian ty w) (λ x. encode ty x) (λ x. Fits ty x) v h.1
            (λ x fits. deserialize-Reads ty x fits))
    deserialize-Reads (array ty n) v h =
        subst
          (λ (k : ℕ).
            Reads (repeat_read (λ w. deserialize endian ty w) k) (encode (array ty n) v) v)
          h.0
          (Reads-repeat (λ w. deserialize endian ty w) (λ x. encode ty x) (λ x. Fits ty x) v h.1
            (λ x fits. deserialize-Reads ty x fits))
    deserialize-Reads pointer v h = Reads-integral 8 v h

    deserialize_alternative-Reads :
        (ts : Tys) (v : Alt ts)
        → FitsAlt ts v
        → Reads (deserialize_alternative endian ts (index ts v)) (encode_alternative ts v) v
    deserialize_alternative-Reads nil = λ v h. elim v [ ]
    deserialize_alternative-Reads (cons ty ts) =
        Reads-cons ty ts (λ v h. deserialize-Reads ty v h)
          (λ v h. deserialize_alternative-Reads ts v h)

    deserialize_fields-Reads :
        (ts : Tys) (v : Fields ts)
        → FitsFields ts v
        → Reads (deserialize_fields endian ts) (encode_fields ts v) v
    deserialize_fields-Reads nil v h = λ before after. rw append-nil
    deserialize_fields-Reads (cons ty ts) v h =
        Reads-then (deserialize endian ty) (λ _. deserialize_fields endian ts) (λ x xs. (x, xs))
          (encode ty v.0) (encode_fields ts v.1) v.0 v.1 (deserialize-Reads ty v.0 h.0)
          (deserialize_fields-Reads ts v.1 h.1)

  -- For a value that fits its type, deserialize on a host of either byte order takes exactly
  -- the bytes of its wire format from the front of the unread part, returns the value, and
  -- leaves the rest unread.
  pub deserialize-encode :
      (ty : Ty) (v : El ty) (before after : Bytes)
      → Fits ty v
      → deserialize endian ty (between before (encode ty v ++ after))
        ≡ some (v, between (before ++ encode ty v) after)
  deserialize-encode ty v before after h = deserialize-Reads ty v h before after
