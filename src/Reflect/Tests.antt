-- ===== src/Reflect/Tests.antt =====
-- Runs of the serializer, and the theorems at such inputs.
use cpp26_experiments.Base.{ℕ, ◌≡◌, refl, inl, inr, [], ◌∷◌, ◌++◌, none, some, arith, codes}
use cpp26_experiments.Message.Hybrid.{Buffer, init, finalize}
use cpp26_experiments.Message.Hybrid.Refine.{written, Holds}
use cpp26_experiments.Message.Hybrid.Laws.{init-Holds}
use cpp26_experiments.Message.View.{between, read}
use cpp26_experiments.Reflect.Words.{little, big, of_object, byteswap}
use cpp26_experiments.Reflect.Types.{Ty, integral, variant, aggregate, range, nil, cons, El, Fits}
use cpp26_experiments.Reflect.Code.{serialize, deserialize, deserialize_integral}
use cpp26_experiments.Reflect.Encoding.{encode, footprint}
use cpp26_experiments.Reflect.Output.{serialize_lem}
use cpp26_experiments.Reflect.RoundTrip.{deserialize-encode}
use cpp26_experiments.Reflect.Hybrid.{hybrid, deserialize-serialize}

-- struct { std::uint16_t id; std::string name; std::variant<char, std::uint32_t> tag; }
abbrev entry : Ty
entry = aggregate (
    cons (integral 2)
      (cons (range (integral 1)) (cons (variant (cons (integral 1) (cons (integral 4) nil))) nil)))

abbrev sample : El entry
sample = (258, (codes "ab", (inr (inl 7), tt)))

encode-sample :
    encode entry sample
    ≡ 2 ∷ 1 ∷ 2 ∷ 0 ∷ 0 ∷ 0 ∷ b'a' ∷ b'b' ∷ 1 ∷ 0 ∷ 0 ∷ 0 ∷ 0 ∷ 0 ∷ 0 ∷ 0 ∷ 7 ∷ 0 ∷ 0 ∷ 0 ∷ []
unfolding encode
encode-sample = refl

-- An index that no alternative has.
unknown_alternative :
    deserialize little
      (variant (cons (integral 1) nil))
      (between [] (2 ∷ 0 ∷ 0 ∷ 0 ∷ 0 ∷ 0 ∷ 0 ∷ 0 ∷ 5 ∷ []))
    ≡ none
unfolding deserialize deserialize_integral read of_object
unknown_alternative = refl

big_endian_host :
    deserialize big (integral 2) (between [] (2 ∷ 1 ∷ [])) ≡ some (258, between (2 ∷ 1 ∷ []) [])
unfolding deserialize deserialize_integral read of_object byteswap
big_endian_host = refl

sample-Fits : Fits entry sample
sample-Fits = omega arith

abbrev sizes : Ty → ℕ
sizes t = 32

serialize_lem_example :
    (b : Buffer) × (serialize little sizes (hybrid 58 (omega arith)) entry sample (init 58)
      ≡ some b)
    × Holds 58 b (encode entry sample)
unfolding footprint
serialize_lem_example =
    serialize_lem (hybrid 58 (omega arith)) little sizes entry sample (init 58) []
      (init-Holds 58 (omega arith)) (omega arith)

deserialize-encode_example :
    deserialize little entry (between (9 ∷ []) (encode entry sample ++ 8 ∷ []))
    ≡ some (sample, between (9 ∷ encode entry sample) (8 ∷ []))
deserialize-encode_example = deserialize-encode little entry sample (9 ∷ []) (8 ∷ []) sample-Fits

deserialize-serialize_example :
    (b : Buffer) × (serialize big sizes (hybrid 58 (omega arith)) entry sample (init 58) ≡ some b)
    × (finalize 58 b ≡ some (written (encode entry sample)))
    × (deserialize little entry (between [] (encode entry sample))
        ≡ some (sample, between (encode entry sample) []))
unfolding footprint
deserialize-serialize_example =
    deserialize-serialize 58 (omega arith) big little sizes entry sample sample-Fits (omega arith)
