-- ===== src/Meta/Packs.antt =====
-- include/erl/_impl/util/meta.hpp: packs of values, as the lists of their elements.
use cpp26_experiments.Base.{ℕ, zero, suc, List, [], ◌∷◌}

-- `Replicator`'s `>>`: the function is called once, with all elements.
abbrev pub apply_all {ℓ κ} : {A : Type ℓ} {B : Type κ} → List A → (List A → B) → B
apply_all elements fnc = fnc elements

-- `Replicator`'s `>>=`: the function is called with each element, in order, on a state.
unfoldable pub for_each {ℓ κ} : {A : Type ℓ} {S : Type κ} → List A → (A → S → S) → S → S
for_each [] fnc s = s
for_each (x ∷ elements) fnc s = for_each elements fnc (fnc x s)

-- `enumerate`, with `idx` where it stands.
unfoldable pub enumerate_from {ℓ} : {A : Type ℓ} → ℕ → List A → List (ℕ × A)
enumerate_from idx [] = []
enumerate_from idx (item ∷ range) = (idx, item) ∷ enumerate_from (suc idx) range

unfoldable pub enumerate {ℓ} : {A : Type ℓ} → List A → List (ℕ × A)
enumerate range = enumerate_from 0 range

-- `std::ranges::iota_view{first, maximum}`, of `n` elements.
unfoldable pub iota : ℕ → ℕ → List ℕ
iota first zero = []
iota first (suc n) = first ∷ iota (suc first) n

unfoldable pub sequence : ℕ → List ℕ
sequence maximum = iota 0 maximum
