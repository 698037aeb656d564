-- ===== src/Bank/Sort/Sorted.antt =====
-- `SortBankItems` puts the items of the bank in order.
use mathlib.Core.List.{Perm}
use mathlib.Core.List.Perm
use tethealla.Base.{
  ℕ, zero, suc, ◌≤◌, ◌≡◌, refl, ap, ◌∙◌, List, [], ◌∷◌, ◌++◌, ltb, if◌then◌else◌, length, take,
  drop, length-take, take-append, drop-append, arith, Bool-cases, inl, inr, ltb→lt,
}
use tethealla.Item.{BankItem}
use tethealla.Game.{Client}
use tethealla.Bank.Sort.{sort_key, exchange, exchange_all, sort_bank_items}

-- Every item has a key of k at least.
abbrev pub IsFrom : ℕ → List BankItem → Type 0
IsFrom k [] = Unit
IsFrom k (b ∷ places) = (k ≤ sort_key b) × IsFrom k places

-- The keys do not go down.
abbrev pub IsSorted : List BankItem → Type 0
IsSorted [] = Unit
IsSorted (b ∷ places) = IsFrom (sort_key b) places × IsSorted places

exchange-IsFrom :
    (k : ℕ) (b1 : BankItem) (places : List BankItem)
    → k ≤ sort_key b1
    → IsFrom k places
    → (k ≤ sort_key (exchange b1 places).0) × IsFrom k (exchange b1 places).1
unfolding exchange
exchange-IsFrom k b1 [] h all = (h, tt)
exchange-IsFrom k b1 (b2 ∷ places) h all = elim (Bool-cases (ltb (sort_key b2) (sort_key b1))) [
  | inl e ↦ let ih = exchange-IsFrom k b2 places all.0 all.1 in rw e (ih.0, (h, ih.1))
  | inr e ↦ let ih = exchange-IsFrom k b1 places h all.1 in rw e (ih.0, (all.0, ih.1))
]

-- What comes to stand in the place is the least.
exchange_low :
    (b1 : BankItem) (places : List BankItem) → sort_key (exchange b1 places).0 ≤ sort_key b1
unfolding exchange
exchange_low b1 [] = omega arith
exchange_low b1 (b2 ∷ places) = elim (Bool-cases (ltb (sort_key b2) (sort_key b1))) [
  | inl e ↦ rw e (omega (arith, exchange_low b2 places, ltb→lt (sort_key b2) (sort_key b1) e))
  | inr e ↦ rw e (exchange_low b1 places)
]

exchange_least :
    (k : ℕ) (b1 : BankItem) (places : List BankItem)
    → k ≤ sort_key (exchange b1 places).0
    → IsFrom k (exchange b1 places).1
unfolding exchange
exchange_least k b1 [] le = tt
exchange_least k b1 (b2 ∷ places) le = elim (Bool-cases (ltb (sort_key b2) (sort_key b1))) [
  | inl e ↦
      let le' : k ≤ sort_key (exchange b2 places).0 = rw e at le in
      rw e (
        omega (arith, le', exchange_low b2 places, ltb→lt (sort_key b2) (sort_key b1) e),
        exchange_least k b2 places le',
      )
  | inr e ↦
      let le' : k ≤ sort_key (exchange b1 places).0 = rw e at le in
      let least : sort_key b1 ≤ sort_key b2 = ground arith in
      rw e (omega (arith, le', exchange_low b1 places, least), exchange_least k b1 places le')
]

exchange-Perm :
    (b1 : BankItem) (places : List BankItem)
    → Perm ((exchange b1 places).0 ∷ (exchange b1 places).1) (b1 ∷ places)
unfolding exchange
exchange-Perm b1 [] = Perm.refl _
exchange-Perm b1 (b2 ∷ places) = elim (Bool-cases (ltb (sort_key b2) (sort_key b1))) [
  | inl e ↦ rw e (Perm.trans (Perm.swap _ _ _) (Perm.cons b1 (exchange-Perm b2 places)))
  | inr e ↦ rw e (
      Perm.trans (Perm.swap _ _ _)
        (Perm.trans (Perm.cons b2 (exchange-Perm b1 places)) (Perm.swap _ _ _)))
]

length-exchange :
    (b1 : BankItem) (places : List BankItem) → length (exchange b1 places).1 ≡ length places
unfolding exchange
length-exchange b1 [] = refl
length-exchange b1 (b2 ∷ places) =
    ap suc (length-exchange (if ltb (sort_key b2) (sort_key b1) then b2 else b1) places)

exchange_all-IsFrom :
    (n k : ℕ) (places : List BankItem) → IsFrom k places → IsFrom k (exchange_all n places)
unfolding exchange_all
exchange_all-IsFrom zero k places h = h
exchange_all-IsFrom (suc n) k [] h = h
exchange_all-IsFrom (suc n) k (b1 ∷ places) h =
    let e = exchange-IsFrom k b1 places h.0 h.1 in
    (e.0, exchange_all-IsFrom n k (exchange b1 places).1 e.1)

exchange_all-IsSorted :
    (n : ℕ) (places : List BankItem) → length places ≤ n → IsSorted (exchange_all n places)
unfolding exchange_all
exchange_all-IsSorted zero [] h = tt
exchange_all-IsSorted zero (b ∷ places) h = absurd (omega arith)
exchange_all-IsSorted (suc n) [] h = tt
exchange_all-IsSorted (suc n) (b1 ∷ places) h = (
  exchange_all-IsFrom n _ (exchange b1 places).1 (exchange_least _ b1 places (omega arith)),
  exchange_all-IsSorted n (exchange b1 places).1 (omega (arith, length-exchange b1 places)),
)

exchange_all-Perm : (n : ℕ) (places : List BankItem) → Perm (exchange_all n places) places
unfolding exchange_all
exchange_all-Perm zero places = Perm.refl _
exchange_all-Perm (suc n) [] = Perm.refl _
exchange_all-Perm (suc n) (b1 ∷ places) =
    Perm.trans (Perm.cons _ (exchange_all-Perm n (exchange b1 places).1)) (exchange-Perm b1 places)

length-exchange_all :
    (n : ℕ) (places : List BankItem) → length (exchange_all n places) ≡ length places
unfolding exchange_all
length-exchange_all zero places = refl
length-exchange_all (suc n) [] = refl
length-exchange_all (suc n) (b1 ∷ places) =
    ap suc (length-exchange_all n (exchange b1 places).1 ∙ length-exchange b1 places)

take_prefix : (n : ℕ) (xs ys : List BankItem) → length xs ≡ n → take n (xs ++ ys) ≡ xs
take_prefix n xs ys e = rw (← e) (take-append xs ys)

drop_prefix : (n : ℕ) (xs ys : List BankItem) → length xs ≡ n → drop n (xs ++ ys) ≡ ys
drop_prefix n xs ys e = rw (← e) (drop-append xs ys)

single : (n : ℕ) (xs : List BankItem) → n ≤ 1 → IsSorted (take n xs)
single zero xs h = tt
single (suc n) [] h = tt
single (suc zero) (x ∷ xs) h = (tt, tt)
single (suc (suc n)) (x ∷ xs) h = absurd (omega arith)

-- `SortBankItems` of a bank whose count is right leaves the same items in the places in use, in an
-- order in which their first bytes, and then their second and third, do not go down, and leaves
-- the other places.
pub sort_bank_items-IsSorted :
    (c : Client)
    → c.bank_use ≤ length c.bank_inventory
    → let after = (sort_bank_items c).bank_inventory in
      Perm (take c.bank_use after) (take c.bank_use c.bank_inventory)
      × IsSorted (take c.bank_use after)
      × (drop c.bank_use after ≡ drop c.bank_use c.bank_inventory)
unfolding sort_bank_items
sort_bank_items-IsSorted c h = elim (Bool-cases (ltb 1 c.bank_use)) [
  | inl e ↦
      let used = take c.bank_use c.bank_inventory in
      let sorted = exchange_all c.bank_use used in
      let size : length used ≡ c.bank_use =
        omega (arith, length-take c.bank_use c.bank_inventory) in
      let same : length sorted ≡ c.bank_use = length-exchange_all c.bank_use used ∙ size in
      rw (e, take_prefix c.bank_use sorted _ same, drop_prefix c.bank_use sorted _ same)
        (
          exchange_all-Perm c.bank_use used,
          exchange_all-IsSorted c.bank_use used (omega arith),
          refl,
        )
  | inr e ↦ rw e (Perm.refl _, single c.bank_use c.bank_inventory (ground arith), refl)
]
