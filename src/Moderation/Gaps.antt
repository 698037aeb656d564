-- ===== src/Moderation/Gaps.antt =====
-- What the loops that close gaps leave: they pass over the first entry.
use tethealla.Base.{
  ℕ, zero, suc, ◌+◌, ◌≤◌, ◌<◌, ◌≡◌, refl, ap, ap₂, sym, ◌∙◌, List, [], ◌∷◌, ◌++◌, append_assoc,
  append-nil, Bool, true, false, ◌&&◌, arith, ◌==◌, if◌then◌else◌, length, get_or, set, take, drop,
  length-append, take-append, Bool-cases, inl, inr,
}
use tethealla.Moderation.{close_up}

-- The entries that pass the test
unfoldable pub survivors {ℓ} : {A : Type ℓ} → (A → Bool) → List A → List A
survivors live [] = []
survivors live (x ∷ xs) = if live x then x ∷ survivors live xs else survivors live xs

and_false : (b : Bool) → (b && false) ≡ false
and_false true = refl
and_false false = refl

module _ {ℓ} {A : Type ℓ} where
  set-append : (xs ys : List A) (y v : A) → set (xs ++ y ∷ ys) (length xs) v ≡ xs ++ v ∷ ys
  set-append [] ys y v = refl
  set-append (x ∷ xs) ys y v = ap (λ r. x ∷ r) (set-append xs ys y v)

  get_or-append : (xs ys : List A) (y d : A) → get_or (xs ++ y ∷ ys) (length xs) d ≡ y
  get_or-append [] ys y d = refl
  get_or-append (x ∷ xs) ys y d = get_or-append xs ys y d

  -- What the loop has left: its first `k` entries
  pub record Left (live : A → Bool) (entries : List A) (p : List A × ℕ) : Type ℓ where
    pub count : p.1 ≡ length entries
    pub held : take p.1 p.0 ≡ entries

module _ {ℓ} {A : Type ℓ} (live : A → Bool) (d : A) where
  -- The loop at equal places
  Left-at :
      (n : ℕ) (e e' : List A) (a a' b b' : ℕ) (xs xs' : List A)
      → e ≡ e'
      → a ≡ a'
      → b ≡ b'
      → xs ≡ xs'
      → Left live e (close_up live d n a b xs)
      → Left live e' (close_up live d n a' b' xs')
  Left-at n e e' a a' b b' xs xs' p q r s t =
      coe 0 1 (i. Left live (p i) (close_up live d n (q i) (r i) (s i))) t

  -- The loop where it reads ahead of where it writes
  close_up-ahead :
      (n : ℕ) (held gap rest : List A)
      → 0 < length gap
      → n ≤ length rest
      → Left live
          (held ++ survivors live (take n rest))
          (close_up live d n (length held + length gap) (length held) (held ++ (gap ++ rest)))
  unfolding close_up survivors
  close_up-ahead zero held gap rest g h = record {
    count = ap length (sym (append-nil held));
    held = take-append held (gap ++ rest) ∙ sym (append-nil held);
  }
  close_up-ahead (suc n) held [] rest g h = elim g [ ]
  close_up-ahead (suc n) held (y ∷ gap) [] g h = elim h [ ]
  close_up-ahead (suc n) held (y ∷ gap) (x ∷ rest) g h =
      let here = held ++ (y ∷ gap ++ x ∷ rest) in
      let ch = length held + suc (length gap) in
      let regroup : (held ++ y ∷ gap) ++ x ∷ rest ≡ here = append_assoc held (y ∷ gap) (x ∷ rest) in
      let place : length (held ++ y ∷ gap) ≡ ch = length-append held (y ∷ gap) in
      let got : get_or here ch d ≡ x =
        ap₂ (λ xs k. get_or xs k d) (sym regroup) (sym place)
        ∙ get_or-append (held ++ y ∷ gap) rest x d in
      let ahead : (ch == length held) ≡ false = ground arith in
      let later = survivors live (take n rest) in
      elim (Bool-cases (live x)) [
        | inl lives ↦
            rw (got, ahead, lives)
              (Left-at n _ _ _ _ _ _ _ _ (append_assoc held (x ∷ []) later)
                (omega (arith, length-append held (x ∷ []), length-append gap (x ∷ [])))
                (length-append held (x ∷ []))
                (append_assoc held (x ∷ []) ((gap ++ x ∷ []) ++ rest)
                  ∙ (ap (λ t. held ++ x ∷ t) (append_assoc gap (x ∷ []) rest)
                      ∙ sym (set-append held (gap ++ x ∷ rest) y x)))
                (close_up-ahead n (held ++ x ∷ []) (gap ++ x ∷ []) rest
                  (omega (arith, length-append gap (x ∷ []))) (omega arith)))
        | inr dead ↦
            rw (got, ahead, dead)
              (Left-at n _ _ _ _ _ _ _ _ refl (omega (arith, length-append gap (x ∷ []))) refl
                (ap (λ t. held ++ y ∷ t) (append_assoc gap (x ∷ []) rest))
                (close_up-ahead n held ((y ∷ gap) ++ x ∷ []) rest (omega arith) (omega arith)))
      ]

  -- From the start: the first round writes nothing and moves nothing on, whatever the first entry
  -- is, so that only the entries after it are kept.
  pub close_up_lem :
      (n : ℕ) (xs : List A)
      → n ≤ length xs
      → Left live (survivors live (drop 1 (take n xs))) (close_up live d n 0 0 xs)
  unfolding close_up survivors
  close_up_lem zero xs h = record { count = refl; held = refl }
  close_up_lem (suc n) [] h = elim h [ ]
  close_up_lem (suc n) (x ∷ rest) h =
      rw (and_false (live x)) (close_up-ahead n [] (x ∷ []) rest (omega arith) (omega arith))
