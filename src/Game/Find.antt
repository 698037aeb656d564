-- ===== src/Game/Find.antt =====
-- What the search loops of ship_server.c find.
use tethealla.Base.{
  ℕ, zero, suc, ◌<◌, ◌≡◌, refl, subst, List, [], ◌∷◌, Bool, true, false, Option, none, some, arith,
  Bool-cases, Option-cases, inl, inr, length, get_or,
}
use tethealla.Game.{find_index}

-- The index is that of the first element that passes, and lies below the limit.
pub record Found {ℓ} {A : Type ℓ} (p : A → Bool) (limit : ℕ) (xs : List A) (d : A) (i : ℕ)
    : Type 0 where
  pub below : i < limit
  pub inside : i < length xs
  pub passes : p (get_or xs i d) ≡ true

abbrev first_of_two : Bool → Option ℕ → Option ℕ
first_of_two b o = elim b [ true ↦ some 0 | false ↦ elim o [ none ↦ none | some i ↦ some (suc i) ] ]

module _ {ℓ} {A : Type ℓ} (p : A → Bool) (d : A) where
  Found-suc :
      (x : A) (n : ℕ) (xs : List A) (i : ℕ)
      → (Found p n xs d i)
      → Found p (suc n) (x ∷ xs) d (suc i)
  Found-suc x n xs i f = record { below = omega arith; inside = omega arith; passes = f.passes }

  Found-step :
      (x : A) (n : ℕ) (xs : List A) (i : ℕ) (b : Bool) (o : Option ℕ)
      → p x ≡ b
      → ((k : ℕ) → o ≡ some k → Found p n xs d k)
      → first_of_two b o ≡ some i
      → Found p (suc n) (x ∷ xs) d i
  Found-step x n xs i true o e later h =
      let zeroth : ◌≡◌ {A = ℕ} 0 i = cc in
      subst (Found p (suc n) (x ∷ xs) d) zeroth
        (record { below = omega arith; inside = omega arith; passes = e })
  Found-step x n xs i false none e later h = cc
  Found-step x n xs i false (some k) e later h =
      let next : suc k ≡ i = cc in
      subst (Found p (suc n) (x ∷ xs) d) next (Found-suc x n xs k (later k refl))

  -- What the search returns is the index of an element that passes, below the limit.
  pub find_index-Found :
      (n : ℕ) (xs : List A) (i : ℕ) → find_index p n xs ≡ some i → Found p n xs d i
  unfolding find_index
  find_index-Found zero xs i h = cc
  find_index-Found (suc n) [] i h = cc
  find_index-Found (suc n) (x ∷ xs) i h =
      Found-step x n xs i (p x) (find_index p n xs) refl (find_index-Found n xs) h

not_later {ℓ} :
    {A : Type ℓ} (p : A → Bool) (n : ℕ) (x : A) (xs : List A)
    → find_index p (suc n) (x ∷ xs) ≡ none
    → find_index p n xs ≡ none
unfolding find_index
not_later p n x xs h = elim (Option-cases (find_index p n xs)) [
  | inl e ↦ e
  | inr (i, e) ↦ ground arith
]

-- Where the search finds nothing, no element below the limit passes.
pub find_index-none {ℓ} :
    {A : Type ℓ} (p : A → Bool) (d : A) (n : ℕ) (xs : List A)
    → find_index p n xs ≡ none
    → (j : ℕ) → j < n
    → j < length xs
    → p (get_or xs j d) ≡ false
unfolding find_index
find_index-none p d zero xs h j q r = absurd (omega arith)
find_index-none p d (suc n) [] h j q r = absurd (omega arith)
find_index-none p d (suc n) (x ∷ xs) h zero q r = elim (Bool-cases (p x)) [
  | inl passes ↦ ground arith
  | inr fails ↦ fails
]
find_index-none p d (suc n) (x ∷ xs) h (suc j) q r =
    find_index-none p d n xs (not_later p n x xs h) j (omega arith) (omega arith)
