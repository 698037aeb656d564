-- ===== src/Inventory/Order/Chosen.antt =====
-- `SortClientItems` gives the items the order that the client asks for.
use tethealla.Base.{
  ℕ, zero, suc, ◌-◌, ◌≤◌, ◌≡◌, ◌≢◌, ◌⊎◌, inl, inr, refl, sym, ap, ◌∙◌, List, [], ◌∷◌, ◌++◌, Bool,
  true, false, not, ◌&&◌, some, arith, ◌==◌, length, take, get_or, replicate, length-append,
  length-replicate, take-append, take_all, ==_refl,
}
use tethealla.Item.{InventoryItem, no_item, zero_inventory_item}
use tethealla.Game.{Client, find_index}
use tethealla.Inventory.CleanUp.{max_inventory}
use tethealla.Inventory.CleanUp.Packed.{IsPacked, IsTidy, items, IsPacked-le}
use tethealla.Inventory.Order.{chosen, sort_client_items}

abbrev pub id_of : InventoryItem → ℕ
id_of s = s.item.itemid

-- An item is one of a list; all of some items are.
abbrev pub IsAmong : InventoryItem → List InventoryItem → Type 0
IsAmong x [] = ⊥
IsAmong x (y ∷ ys) = (x ≡ y) ⊎ IsAmong x ys

abbrev pub AreAmong : List InventoryItem → List InventoryItem → Type 0
AreAmong [] ys = Unit
AreAmong (x ∷ xs) ys = IsAmong x ys × AreAmong xs ys

-- No item has an id; all ids are different.
abbrev pub IsFresh : ℕ → List InventoryItem → Type 0
IsFresh id [] = Unit
IsFresh id (y ∷ ys) = (id_of y ≢ id) × IsFresh id ys

abbrev pub IsDistinct : List InventoryItem → Type 0
IsDistinct [] = Unit
IsDistinct (y ∷ ys) = IsFresh (id_of y) ys × IsDistinct ys

among_fresh :
    (id : ℕ) (x : InventoryItem) (ys : List InventoryItem)
    → IsAmong x ys
    → IsFresh id ys
    → id_of x ≢ id
among_fresh id x [] a f = absurd a
among_fresh id x (y ∷ ys) (inl e) f = λ h. f.0 (ap id_of (sym e) ∙ h)
among_fresh id x (y ∷ ys) (inr a) f = among_fresh id x ys a f.1

abbrev test : ℕ → InventoryItem → Bool
test id s = not (s.in_use == 0) && s.item.itemid == id

first_hit :
    (p : InventoryItem → Bool) (n : ℕ) (y : InventoryItem) (slots : List InventoryItem)
    → p y ≡ true
    → find_index p (suc n) (y ∷ slots) ≡ some 0
unfolding find_index
first_hit p n y slots e = rw (e, find_index)

later_hit :
    (p : InventoryItem → Bool) (n ch : ℕ) (y : InventoryItem) (slots : List InventoryItem)
    → p y ≡ false
    → find_index p n slots ≡ some ch
    → find_index p (suc n) (y ∷ slots) ≡ some (suc ch)
unfolding find_index
later_hit p n ch y slots e later = rw (e, later, find_index)

-- The loop finds the item itself by its id.
finds :
    (n : ℕ) (slots : List InventoryItem) (x : InventoryItem)
    → IsPacked n slots
    → IsDistinct (take n slots)
    → IsAmong x (take n slots)
    → (ch : ℕ) × (find_index (test (id_of x)) n slots ≡ some ch)
      × (get_or slots ch zero_inventory_item ≡ x)
unfolding find_index
finds zero slots x p d a = absurd a
finds (suc n) [] x p d a = absurd p
finds (suc n) (y ∷ slots) x p d (inl e) =
    let used : (y.in_use == 0) ≡ false = ground arith in
    let same : (y.item.itemid == x.item.itemid) ≡ true =
      ap (λ z. id_of y == id_of z) e ∙ ==_refl (id_of y) in
    let passes : test (id_of x) y ≡ true = rw (used, same) in
    (0, first_hit (test (id_of x)) n y slots passes, sym e)
finds (suc n) (y ∷ slots) x p d (inr a) =
    let (ch, e, g) = finds n slots x p.1 d.1 a in
    let ne = among_fresh (id_of y) x (take n slots) a d.0 in
    let other : (y.item.itemid == x.item.itemid) ≡ false = ground arith in
    let used : (y.in_use == 0) ≡ false = ground arith in
    let fails : test (id_of x) y ≡ false = rw (used, other) in
    (suc ch, later_hit (test (id_of x)) n ch y slots fails e, g)

chosen-free : (k n : ℕ) (slots : List InventoryItem) → chosen (replicate k no_item) n slots ≡ []
unfolding chosen
chosen-free zero n slots = refl
chosen-free (suc k) n slots = chosen-free k n slots

abbrev pub ids_of : List InventoryItem → List ℕ
ids_of [] = []
ids_of (x ∷ xs) = id_of x ∷ ids_of xs

chosen_lem :
    (xs : List InventoryItem) (k n : ℕ) (slots : List InventoryItem)
    → IsPacked n slots
    → IsDistinct (take n slots)
    → IsFresh no_item (take n slots)
    → AreAmong xs (take n slots)
    → chosen (ids_of xs ++ replicate k no_item) n slots ≡ xs
unfolding chosen
chosen_lem [] k n slots p d f a = chosen-free k n slots
chosen_lem (x ∷ xs) k n slots p d f a =
    let (ch, e, g) = finds n slots x p d a.0 in
    let real = among_fresh no_item x (take n slots) a.0 f in
    let named : (x.item.itemid == no_item) ≡ false = ground arith in
    rw (named, e, g) (ap (λ r. x ∷ r) (chosen_lem xs k n slots p d f a.1))

length-ids : (xs : List InventoryItem) → length (ids_of xs) ≡ length xs
length-ids [] = refl
length-ids (x ∷ xs) = ap suc (length-ids xs)

-- A client with a tidy inventory whose items have different ids (none of them 0xFFFFFFFF) sends as
-- many ids of its items as it has items, each of them any number of times, and 0xFFFFFFFF in the
-- rest of the 30 places of the packet: its items are then the ones named, in that order.
pub sort_client_items-order :
    (xs : List InventoryItem) (c : Client)
    → IsTidy c
    → length xs ≡ c.inventory_use
    → AreAmong xs (items c)
    → IsDistinct (items c)
    → IsFresh no_item (items c)
    → items (sort_client_items (ids_of xs ++ replicate (max_inventory - length xs) no_item) c) ≡ xs
unfolding sort_client_items
sort_client_items-order xs c v size among distinct real =
    let k = max_inventory - length xs in
    let le : length xs ≤ max_inventory =
      omega (arith, size, IsPacked-le c.inventory_use c.inventory v.packed, v.size) in
    let ids = ids_of xs ++ replicate k no_item in
    let whole : take max_inventory ids ≡ ids = take_all max_inventory ids (
      omega (
        arith,
        length-append (ids_of xs) (replicate k no_item),
        length-replicate k no_item,
        length-ids xs,
        le,
      )) in
    rw (whole, chosen_lem xs k c.inventory_use c.inventory v.packed distinct real among, ← size)
      (take-append xs _)
