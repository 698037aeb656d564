-- ===== src/Bank/Places.antt =====
-- What `CleanUpBank` makes of the places of a bank.
use tethealla.Base.{
  ℕ, zero, suc, ◌+◌, ◌-◌, ◌≤◌, ◌<◌, ◌≡◌, refl, sym, ap, ◌∙◌, List, [], ◌∷◌, ◌++◌, inl, inr, arith,
  ◌==◌, if◌then◌else◌, length, take, set, get_or, replicate, length-append, length-replicate,
  take-append, take_all, Bool-cases,
}
use tethealla.Item.{BankItem, no_item, empty_bank_item}
use tethealla.Game.{Client}
use tethealla.Bank.{max_bank, banked, clean_up_bank}
use tethealla.Bank.Units.{bank_units, bank_total}

-- A bank in order: 200 places, and those in use are the first ones.
pub record IsTidyBank (c : Client) : Type 0 where
  pub size : length c.bank_inventory ≡ max_bank
  pub used : take c.bank_use c.bank_inventory ≡ banked c.bank_inventory

-- The units of a kind that a place holds, if it is in use.
abbrev pub live_units : ℕ → BankItem → ℕ
live_units kind b = if b.itemid == no_item then 0 else bank_units kind b

banked_total-cons :
    (kind : ℕ) (b : BankItem) (places : List BankItem)
    → bank_total kind (banked (b ∷ places)) ≡ live_units kind b + bank_total kind (banked places)
unfolding banked bank_total
banked_total-cons kind b places = elim (Bool-cases (b.itemid == no_item)) [
  | inl e ↦ rw e (omega arith)
  | inr e ↦ rw e refl
]

-- A write of a place changes the units in the bank by those of the place.
pub banked_total-set :
    (kind : ℕ) (xs : List BankItem) (k : ℕ) (v d : BankItem)
    → k < length xs
    → bank_total kind (banked (set xs k v)) + live_units kind (get_or xs k d)
      ≡ bank_total kind (banked xs) + live_units kind v
banked_total-set kind [] k v d h = absurd (omega arith)
banked_total-set kind (x ∷ xs) zero v d h =
    omega (arith, banked_total-cons kind x xs, banked_total-cons kind v xs)
banked_total-set kind (x ∷ xs) (suc k) v d h = omega (
  arith,
  banked_total-cons kind x xs,
  banked_total-cons kind x (set xs k v),
  banked_total-set kind xs k v d (omega arith),
)

length-banked : (xs : List BankItem) → length (banked xs) ≤ length xs
unfolding banked
length-banked [] = omega arith
length-banked (x ∷ xs) = ground (arith, length-banked xs)

banked-free : (k : ℕ) → banked (replicate k empty_bank_item) ≡ []
unfolding banked
banked-free zero = refl
banked-free (suc k) = banked-free k

banked_again :
    (xs : List BankItem) (k : ℕ) → banked (banked xs ++ replicate k empty_bank_item) ≡ banked xs
unfolding banked
banked_again [] k = banked-free k
banked_again (x ∷ xs) k = elim (Bool-cases (x.itemid == no_item)) [
  | inl e ↦ rw e (banked_again xs k)
  | inr e ↦ rw (e, e) (ap (λ r. x ∷ r) (banked_again xs k))
]

-- On 200 places `CleanUpBank` leaves a bank in order that holds what was in use, in its order; done
-- again, it changes nothing.
pub clean_up_bank_lem :
    (c : Client)
    → length c.bank_inventory ≡ max_bank
    → let c' = clean_up_bank c in
      IsTidyBank c'
      × (take c'.bank_use c'.bank_inventory ≡ banked c.bank_inventory)
      × (clean_up_bank c' ≡ c')
unfolding clean_up_bank
clean_up_bank_lem c h =
    let all : take max_bank c.bank_inventory ≡ c.bank_inventory =
      take_all max_bank c.bank_inventory (omega arith) in
    let xs = banked c.bank_inventory in
    let k = max_bank - length xs in
    let pad = xs ++ replicate k empty_bank_item in
    let size : length pad ≡ max_bank = omega (
      arith,
      length-append xs (replicate k empty_bank_item),
      length-replicate k empty_bank_item,
      length-banked c.bank_inventory,
    ) in
    let front : take (length xs) pad ≡ xs = take-append xs _ in
    let again : banked (take max_bank pad) ≡ xs =
      ap banked (take_all max_bank pad (omega arith)) ∙ banked_again c.bank_inventory k in
    rw all (
      record { size = size; used = front ∙ sym (banked_again c.bank_inventory k) },
      front,
      ap
          (λ ys. record c {
            bank_use = length ys;
            bank_inventory = ys ++ replicate (max_bank - length ys) empty_bank_item;
          })
          again,
    )
