-- ===== src/Bank/Units.antt =====
-- How many units of a kind of item the places of a bank hold.
use tethealla.Base.{
  ℕ, zero, suc, ◌+◌, ◌<◌, ◌≡◌, List, [], ◌∷◌, arith, ◌==◌, if◌then◌else◌, length, take, set, get_or,
}
use tethealla.Item.{BankItem, compare_item}
use tethealla.Bank.{bank_stack}

-- The units of a kind in the places of a bank.
abbrev pub bank_units : ℕ → BankItem → ℕ
bank_units kind b = if compare_item b.data_bytes == kind then bank_stack b else 0

unfoldable pub bank_total : ℕ → List BankItem → ℕ
bank_total kind [] = 0
bank_total kind (b ∷ places) = bank_units kind b + bank_total kind places

pub bank_total-set :
    (kind : ℕ) (xs : List BankItem) (n k : ℕ) (v d : BankItem)
    → k < n
    → k < length xs
    → bank_total kind (take n (set xs k v)) + bank_units kind (get_or xs k d)
      ≡ bank_total kind (take n xs) + bank_units kind v
unfolding bank_total
bank_total-set kind [] n k v d lt h = absurd (omega arith)
bank_total-set kind (x ∷ xs) zero k v d lt h = absurd (omega arith)
bank_total-set kind (x ∷ xs) (suc n) zero v d lt h = omega arith
bank_total-set kind (x ∷ xs) (suc n) (suc k) v d lt h =
    omega (arith, bank_total-set kind xs n k v d (omega arith) (omega arith))

bank_total-set-suc :
    (kind : ℕ) (xs : List BankItem) (n : ℕ) (v : BankItem)
    → n < length xs
    → bank_total kind (take (suc n) (set xs n v)) ≡ bank_total kind (take n xs) + bank_units kind v
unfolding bank_total
bank_total-set-suc kind [] n v h = absurd (omega arith)
bank_total-set-suc kind (x ∷ xs) zero v h = omega arith
bank_total-set-suc kind (x ∷ xs) (suc n) v h =
    omega (arith, bank_total-set-suc kind xs n v (omega arith))

pub bank_total-set_next :
    (kind : ℕ) (xs : List BankItem) (n : ℕ) (v : BankItem)
    → n < length xs
    → bank_total kind (take (n + 1) (set xs n v)) ≡ bank_total kind (take n xs) + bank_units kind v
bank_total-set_next kind xs n v h =
    let one : n + 1 ≡ suc n = omega arith in rw one (bank_total-set-suc kind xs n v h)
