-- ===== src/Queues/Window.antt =====
-- A circular buffer whose positions are counted without end: position `i` is cell `i % n`.
use native.Mathlib.Nat.{mod-lt, mod-eq_of_lt, mod-eq-sub-mod, mod-add-mod, add-mod_right}
use cpp26_experiments.Base.{
  ℕ, ◌+◌, ◌-◌, ◌%◌, ◌<◌, ◌≤◌, ◌≡◌, sym, ap, ◌∙◌, List, [], ◌∷◌, ◌++◌, some, arith, dec_lt,
  ℕ_discrete, ◌==◌, length, set, get_elem?, get_elem?-set_self, get_elem?-set_ne,
}

-- Two positions less than a turn apart are the same cell only if they are the same.
pub mod_injective : (n a b : ℕ) → a ≤ b → b < a + n → a % n ≡ b % n → a ≡ b
mod_injective n a b le near e =
    let h = a % n in
    let d = b - a in
    let h_small : h < n = mod-lt a (omega arith) in
    let same : (h + d) % n ≡ h = mod-add-mod a n d ∙ ap (λ (k : ℕ). k % n) (omega arith) ∙ sym e in
    elim (dec_lt (h + d) n) [
      | yes p ↦ omega (arith, mod-eq_of_lt p)
      | no p ↦ omega (
        arith,
        mod-eq-sub-mod {n = h + d} {m = n} (omega arith),
        mod-eq_of_lt {n = h + d - n} {m = n} (omega arith),
      )
    ]

pub suc_mod : (n a : ℕ) → (a % n + 1) % n ≡ (a + 1) % n
suc_mod n a = mod-add-mod a n 1

-- The position behind `w` comes back to the cell of `s` just when a whole turn lies between.
pub turn_test : (n s w : ℕ) → s ≤ w → w < s + n → (((w + 1) % n) == (s % n)) ≡ ((w + 1) == (s + n))
turn_test n s w le near = elim (dec_lt (w + 1) (s + n)) [
  | yes p ↦ ground (arith, λ (e : s % n ≡ (w + 1) % n). mod_injective n s (w + 1) (omega arith) p e)
  | no p ↦
      ground (arith, add-mod_right s n, ap (λ (k : ℕ). k % n) {x = w + 1} {y = s + n} (omega arith))
]

-- Two positions less than a turn apart: the test of their cells is the test of the positions.
pub same_test : (n a b : ℕ) → a ≤ b → b < a + n → ((a % n) == (b % n)) ≡ (a == b)
same_test n a b le near = elim (ℕ_discrete a b) [
  | yes p ↦ ground (arith, ap (λ (k : ℕ). k % n) p)
  | no p ↦ ground (arith, λ (e : a % n ≡ b % n). mod_injective n a b le near e)
]

module _ {ℓ} {A : Type ℓ} (n : ℕ) where
  -- From position `start` on, the buffer holds the items of the list.
  abbrev pub Window : List A → ℕ → List A → Type ℓ
  Window buffer start [] = Unit
  Window buffer start (x ∷ xs) =
      (get_elem? buffer (start % n) ≡ some x) × Window buffer (start + 1) xs

  -- A write to a cell that the window does not reach leaves it alone.
  pub Window-set_outside :
      (buffer : List A) (start at : ℕ) (v : A) (xs : List A)
      → start + length xs ≤ at
      → at < start + n
      → Window buffer start xs
      → Window (set buffer (at % n) v) start xs
  Window-set_outside buffer start at v [] le near h = tt
  Window-set_outside buffer start at v (x ∷ xs) le near (e, h) = (
    get_elem?-set_ne buffer (at % n) (start % n) v
          (λ same. absurd (omega (arith, mod_injective n start at (omega arith) near (sym same))))
        ∙ e,
    Window-set_outside buffer (start + 1) at v xs (omega arith) (omega arith) h,
  )

  pub Window-snoc :
      (buffer : List A) (start : ℕ) (v : A) (xs : List A)
      → Window buffer start xs
      → get_elem? buffer ((start + length xs) % n) ≡ some v
      → Window buffer start (xs ++ (v ∷ []))
  Window-snoc buffer start v [] h e =
      (ap (λ (i : ℕ). get_elem? buffer (i % n)) (omega arith) ∙ e, tt)
  Window-snoc buffer start v (x ∷ xs) (e', h) e = (
    e',
    Window-snoc buffer (start + 1) v xs h
        (ap (λ (i : ℕ). get_elem? buffer (i % n)) (omega arith) ∙ e),
  )

  -- A write to the cell behind the window extends it.
  pub Window-set :
      (buffer : List A) (start : ℕ) (v : A) (xs : List A)
      → length buffer ≡ n
      → length xs < n
      → Window buffer start xs
      → Window (set buffer ((start + length xs) % n) v) start (xs ++ (v ∷ []))
  Window-set buffer start v xs sized room h =
      let at = start + length xs in
      let inside : at % n < length buffer = omega (arith, mod-lt at {m = n} (omega arith)) in
      Window-snoc (set buffer (at % n) v) start v xs
        (Window-set_outside buffer start at v xs (omega arith) (omega arith) h)
        (get_elem?-set_self buffer (at % n) v inside)
