-- ===== src/Inventory/CleanUp/Packed.antt =====
-- What `CleanUpInventory` makes of an inventory: the items in use come first, in their order.
use tethealla.Base.{
  ℕ, zero, suc, ◌-◌, ◌≤◌, ◌<◌, ◌≡◌, refl, ap, ◌∙◌, List, [], ◌∷◌, ◌++◌, ◌==◌, arith, length, take,
  set, replicate, length-append, length-replicate, take-append, take_all, Bool-cases, inl, inr,
}
use tethealla.Item.{InventoryItem, zero_inventory_item}
use tethealla.Game.{Client}
use tethealla.Inventory.CleanUp.{max_inventory, kept, clean_up_inventory}

-- The first n slots are in use, and no others.
abbrev pub IsPacked : ℕ → List InventoryItem → Type 0
IsPacked zero [] = Unit
IsPacked (suc n) [] = ⊥
IsPacked zero (i ∷ slots) = (i.in_use ≡ 0) × IsPacked zero slots
IsPacked (suc n) (i ∷ slots) = (0 < i.in_use) × IsPacked n slots

-- An inventory as `CleanUpInventory` leaves it: 30 slots, the items first.
pub record IsTidy (c : Client) : Type 0 where
  pub size : length c.inventory ≡ max_inventory
  pub packed : IsPacked c.inventory_use c.inventory

-- The items that a character has.
abbrev pub items : Client → List InventoryItem
items c = take c.inventory_use c.inventory

-- An element taken out of a list.
abbrev pub remove {ℓ} : {A : Type ℓ} → ℕ → List A → List A
remove i [] = []
remove zero (x ∷ xs) = xs
remove (suc i) (x ∷ xs) = x ∷ remove i xs

pub IsPacked-le : (n : ℕ) (xs : List InventoryItem) → IsPacked n xs → n ≤ length xs
IsPacked-le zero xs h = omega arith
IsPacked-le (suc n) [] h = absurd h
IsPacked-le (suc n) (x ∷ xs) h = omega (arith, IsPacked-le n xs h.1)

IsPacked-unused : (k : ℕ) → IsPacked 0 (replicate k zero_inventory_item)
IsPacked-unused zero = tt
IsPacked-unused (suc k) = (refl, IsPacked-unused k)

kept-IsPacked :
    (xs : List InventoryItem) (k : ℕ)
    → IsPacked (length (kept xs)) (kept xs ++ replicate k zero_inventory_item)
unfolding kept
kept-IsPacked [] k = IsPacked-unused k
kept-IsPacked (x ∷ xs) k = elim (Bool-cases (x.in_use == 0)) [
  | inl e ↦ rw e (kept-IsPacked xs k)
  | inr e ↦ rw e (ground arith, kept-IsPacked xs k)
]

length-kept : (xs : List InventoryItem) → length (kept xs) ≤ length xs
unfolding kept
length-kept [] = omega arith
length-kept (x ∷ xs) = ground (arith, length-kept xs)

-- In a packed inventory the loop keeps the items that are there.
pub kept_of_IsPacked : (n : ℕ) (xs : List InventoryItem) → IsPacked n xs → kept xs ≡ take n xs
unfolding kept
kept_of_IsPacked zero [] h = refl
kept_of_IsPacked (suc n) [] h = absurd h
kept_of_IsPacked zero (x ∷ xs) h = ground (arith, kept_of_IsPacked zero xs h.1)
kept_of_IsPacked (suc n) (x ∷ xs) h = ground (arith, kept_of_IsPacked n xs h.1)

-- Where one of them is no longer in use, it is taken out and the others keep their order.
pub kept-set_unused :
    (n : ℕ) (xs : List InventoryItem) (i : ℕ) (v : InventoryItem)
    → IsPacked n xs
    → i < n
    → v.in_use ≡ 0
    → kept (set xs i v) ≡ remove i (take n xs)
unfolding kept
kept-set_unused zero xs i v h lt e = absurd (omega arith)
kept-set_unused (suc n) [] i v h lt e = absurd h
kept-set_unused (suc n) (x ∷ xs) zero v h lt e = ground (arith, kept_of_IsPacked n xs h.1)
kept-set_unused (suc n) (x ∷ xs) (suc i) v h lt e =
    ground (arith, kept-set_unused n xs i v h.1 (omega arith) e)

pub set-IsPacked :
    (n : ℕ) (xs : List InventoryItem) (i : ℕ) (v : InventoryItem)
    → IsPacked n xs
    → i < n
    → 0 < v.in_use
    → IsPacked n (set xs i v)
set-IsPacked zero xs i v h lt e = absurd (omega arith)
set-IsPacked (suc n) [] i v h lt e = h
set-IsPacked (suc n) (x ∷ xs) zero v h lt e = (e, h.1)
set-IsPacked (suc n) (x ∷ xs) (suc i) v h lt e = (h.0, set-IsPacked n xs i v h.1 (omega arith) e)

-- `inventory[inventoryUse] = v` with v in use, where a slot is left
pub set_next-IsPacked :
    (n : ℕ) (xs : List InventoryItem) (v : InventoryItem)
    → IsPacked n xs
    → n < length xs
    → 0 < v.in_use
    → IsPacked (suc n) (set xs n v)
set_next-IsPacked n [] v h lt e = absurd (omega arith)
set_next-IsPacked zero (x ∷ xs) v h lt e = (e, h.1)
set_next-IsPacked (suc n) (x ∷ xs) v h lt e = (h.0, set_next-IsPacked n xs v h.1 (omega arith) e)

pub take-set_next :
    (n : ℕ) (xs : List InventoryItem) (v : InventoryItem)
    → n < length xs
    → take (suc n) (set xs n v) ≡ take n xs ++ (v ∷ [])
take-set_next n [] v lt = absurd (omega arith)
take-set_next zero (x ∷ xs) v lt = refl
take-set_next (suc n) (x ∷ xs) v lt = ap (λ r. x ∷ r) (take-set_next n xs v (omega arith))

pub take-set :
    (n : ℕ) (xs : List InventoryItem) (i : ℕ) (v : InventoryItem)
    → i < n
    → take n (set xs i v) ≡ set (take n xs) i v
take-set zero xs i v h = absurd (omega arith)
take-set (suc n) [] i v h = refl
take-set (suc n) (x ∷ xs) zero v h = refl
take-set (suc n) (x ∷ xs) (suc i) v h = ap (λ r. x ∷ r) (take-set n xs i v (omega arith))

abbrev pad : List InventoryItem → List InventoryItem
pad xs = xs ++ replicate (max_inventory - length xs) zero_inventory_item

abbrev laid_out : List InventoryItem → Client → Client
laid_out xs c = record c { inventory_use = length xs; inventory = pad xs }

-- `CleanUpInventory` of 30 slots lays out those in use.
clean_up_laid_out :
    (c : Client)
    → length c.inventory ≡ max_inventory
    → clean_up_inventory c ≡ laid_out (kept c.inventory) c
unfolding clean_up_inventory
clean_up_laid_out c h =
    ap (λ xs. laid_out (kept xs) c) (take_all max_inventory c.inventory (omega arith))

length-pad : (xs : List InventoryItem) → length xs ≤ max_inventory → length (pad xs) ≡ max_inventory
length-pad xs h = omega (
  arith,
  length-append xs (replicate (max_inventory - length xs) zero_inventory_item),
  length-replicate (max_inventory - length xs) zero_inventory_item,
)

kept-pad : (xs : List InventoryItem) → kept (pad (kept xs)) ≡ kept xs
kept-pad xs =
    kept_of_IsPacked (length (kept xs)) (pad (kept xs))
      (kept-IsPacked xs (max_inventory - length (kept xs)))
    ∙ take-append (kept xs) _

-- On 30 slots `CleanUpInventory` leaves 30 slots: the items that were in use, in their order, and
-- then unused slots, with the right count; done again, it changes nothing.
pub clean_up_inventory_lem :
    (c : Client)
    → length c.inventory ≡ max_inventory
    → IsTidy (clean_up_inventory c)
      × (items (clean_up_inventory c) ≡ kept c.inventory)
      × (clean_up_inventory (clean_up_inventory c) ≡ clean_up_inventory c)
clean_up_inventory_lem c h =
    let fits : length (kept c.inventory) ≤ max_inventory = omega (arith, length-kept c.inventory) in
    rw (clean_up_laid_out c h) (
      record {
        size = length-pad (kept c.inventory) fits;
        packed = kept-IsPacked c.inventory (max_inventory - length (kept c.inventory));
      },
      take-append (kept c.inventory) _,
      clean_up_laid_out (laid_out (kept c.inventory) c) (length-pad (kept c.inventory) fits)
          ∙ ap (λ xs. laid_out xs c) (kept-pad c.inventory),
    )
