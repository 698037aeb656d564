-- ===== src/Moderation/Entries.antt =====
-- The part of an array that its count covers, after a write, a search and a loop.
use tethealla.Base.{
  ℕ, zero, suc, ◌+◌, ◌≤◌, ◌<◌, ◌≡◌, refl, ap, ◌∙◌, List, [], ◌∷◌, ◌++◌, Bool, true, some, arith,
  length, get_or, set, take, drop, length-set, Bool-cases, inl, inr,
}
use tethealla.Game.{find_index}
use tethealla.Moderation.{close_up}
use tethealla.Moderation.Gaps.{survivors, close_up_lem}

module _ {ℓ} {A : Type ℓ} where
  pub take-set : (n : ℕ) (xs : List A) (i : ℕ) (v : A) → take n (set xs i v) ≡ set (take n xs) i v
  take-set zero xs i v = refl
  take-set (suc n) [] i v = refl
  take-set (suc n) (x ∷ xs) zero v = refl
  take-set (suc n) (x ∷ xs) (suc i) v = ap (λ r. x ∷ r) (take-set n xs i v)

  pub take-set_next :
      (n : ℕ) (xs : List A) (v : A)
      → n < length xs
      → take (n + 1) (set xs n v) ≡ take n xs ++ v ∷ []
  take-set_next n [] v h = elim h [ ]
  take-set_next zero (x ∷ xs) v h = refl
  take-set_next (suc n) (x ∷ xs) v h =
      let next : suc n + 1 ≡ suc (n + 1) = omega arith in
      ap (λ k. take k (x ∷ set xs n v)) next ∙ ap (λ r. x ∷ r) (take-set_next n xs v (omega arith))

  -- A search finds something where an element passes.
  pub find_index-finds :
      (p : A → Bool) (d : A) (n : ℕ) (xs : List A) (i : ℕ)
      → i < n
      → i < length xs
      → p (get_or xs i d) ≡ true
      → (k : ℕ) × (find_index p n xs ≡ some k)
  unfolding find_index
  find_index-finds p d zero xs i h l e = absurd (omega arith)
  find_index-finds p d (suc n) [] i h l e = elim l [ ]
  find_index-finds p d (suc n) (x ∷ xs) zero h l e = (0, rw (find_index, e))
  find_index-finds p d (suc n) (x ∷ xs) (suc i) h l e = elim (Bool-cases (p x)) [
    | inl first ↦ (0, rw (find_index, first))
    | inr later ↦
        let (k, found) = find_index-finds p d n xs i (omega arith) (omega arith) e in
        (suc k, rw (find_index, later, found))
  ]

  -- What a loop leaves of an array in which one entry has been cleared
  pub closed_entries :
      (live : A → Bool) (d : A) (n : ℕ) (xs : List A) (ch : ℕ) (cleared : A)
      → n ≤ length xs
      → let (closed, ch2) = close_up live d n 0 0 (set xs ch cleared) in
        take ch2 closed ≡ survivors live (drop 1 (set (take n xs) ch cleared))
  closed_entries live d n xs ch cleared h =
      (close_up_lem live d n (set xs ch cleared) (omega (arith, length-set xs ch cleared))).held
      ∙ ap (λ r. survivors live (drop 1 r)) (take-set n xs ch cleared)
