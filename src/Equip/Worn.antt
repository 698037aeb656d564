-- ===== src/Equip/Worn.antt =====
-- How many items of a kind are worn, and what the loops of Equip do to the number.
use tethealla.Base.{
  ℕ, zero, suc, ◌+◌, ◌≤◌, ◌≡◌, ◌≢◌, ap, refl, List, [], ◌∷◌, Bool, true, false, ◌&&◌, if◌then◌else◌,
  arith, get_or, set, length, Bool-cases, inl, inr, get_or-set_ne,
}
use tethealla.Item.{InventoryItem, byte, equipped}
use tethealla.Game.{map_first}
use tethealla.Equip.{taken_off, out_of_slot, take_off, take_out}
use tethealla.Equip.Flags.{equipped-taken_off}

-- 1 where the item is worn and of the kind
abbrev pub worn : (InventoryItem → Bool) → InventoryItem → ℕ
worn kind i = if kind i && equipped i then 1 else 0

-- The number among the first `n` items
unfoldable pub worn_count : (InventoryItem → Bool) → ℕ → List InventoryItem → ℕ
worn_count kind zero items = 0
worn_count kind (suc n) [] = 0
worn_count kind (suc n) (i ∷ items) = worn kind i + worn_count kind n items

-- A change of an item that puts nothing on
abbrev pub Lowers : (InventoryItem → InventoryItem) → Type 0
Lowers f = (kind : InventoryItem → Bool) (i : InventoryItem) → worn kind (f i) ≤ worn kind i

and_false : (b : Bool) → (b && false) ≡ false
and_false true = refl
and_false false = refl

pub worn-off :
    (kind : InventoryItem → Bool) (i : InventoryItem) → equipped i ≡ false → worn kind i ≡ 0
worn-off kind i h = rw (h, and_false (kind i)) refl

-- What the two bodies do to one item: those of a part of their kind are off, and nothing is put on.
module _ (kind : InventoryItem → Bool) (part : InventoryItem → Bool) (i : InventoryItem) where
  off_where_false :
      (kind i && equipped i) ≡ false → (part i ≡ true → kind i ≡ true) → worn part i ≡ 0
  off_where_false e within = ground (arith, within)

  pub worn-take_off :
      (part i ≡ true → kind i ≡ true)
      → (worn part (take_off kind i) ≡ 0) × (worn part (take_out kind i) ≡ 0)
  unfolding take_off take_out
  worn-take_off within = elim (Bool-cases (kind i && equipped i)) [
    | inl e ↦ rw e (
      worn-off part (taken_off i) (equipped-taken_off i),
      worn-off part (out_of_slot (taken_off i)) (equipped-taken_off i),
    )
    | inr e ↦ rw e (off_where_false e within, off_where_false e within)
  ]

  pub worn-take_off_le :
      (worn part (take_off kind i) ≤ worn part i) × (worn part (take_out kind i) ≤ worn part i)
  unfolding take_off take_out
  worn-take_off_le = elim (Bool-cases (kind i && equipped i)) [
    | inl e ↦
        let off = worn-off part (taken_off i) (equipped-taken_off i) in
        let out = worn-off part (out_of_slot (taken_off i)) (equipped-taken_off i) in
        rw e (omega (arith, off), omega (arith, out))
    | inr e ↦ rw e (omega arith, omega arith)
  ]

-- The loop over the items
module _ (kind : InventoryItem → Bool) (f : InventoryItem → InventoryItem) where
  pub worn_count-map_first_le :
      (n : ℕ) (items : List InventoryItem)
      → ((i : InventoryItem) → worn kind (f i) ≤ worn kind i)
      → worn_count kind n (map_first f n items) ≤ worn_count kind n items
  unfolding worn_count map_first
  worn_count-map_first_le zero items h = omega arith
  worn_count-map_first_le (suc n) [] h = omega arith
  worn_count-map_first_le (suc n) (i ∷ items) h =
      omega (arith, h i, worn_count-map_first_le n items h)

  pub worn_count-map_first_none :
      (n : ℕ) (items : List InventoryItem)
      → ((i : InventoryItem) → worn kind (f i) ≡ 0)
      → worn_count kind n (map_first f n items) ≡ 0
  unfolding worn_count map_first
  worn_count-map_first_none zero items h = refl
  worn_count-map_first_none (suc n) [] h = refl
  worn_count-map_first_none (suc n) (i ∷ items) h =
      omega (arith, h i, worn_count-map_first_none n items h)

-- An item that is written into a slot
module _ (kind : InventoryItem → Bool) where
  pub worn_count-set_le :
      (n ch : ℕ) (items : List InventoryItem) (i : InventoryItem)
      → worn_count kind n (set items ch i) ≤ worn_count kind n items + worn kind i
  unfolding worn_count
  worn_count-set_le zero ch items i = omega arith
  worn_count-set_le (suc n) ch [] i = omega arith
  worn_count-set_le (suc n) zero (x ∷ items) i = omega arith
  worn_count-set_le (suc n) (suc ch) (x ∷ items) i = omega (arith, worn_count-set_le n ch items i)

  pub worn_count-set_twice_le :
      (n ch : ℕ) (items : List InventoryItem) (i j : InventoryItem)
      → worn_count kind n (set (set items ch i) ch j) ≤ worn_count kind n items + worn kind j
  unfolding worn_count
  worn_count-set_twice_le zero ch items i j = omega arith
  worn_count-set_twice_le (suc n) ch [] i j = omega arith
  worn_count-set_twice_le (suc n) zero (x ∷ items) i j = omega arith
  worn_count-set_twice_le (suc n) (suc ch) (x ∷ items) i j =
      omega (arith, worn_count-set_twice_le n ch items i j)

-- The loops keep the length, the kind of each item, and what lies past the items in use.
module _ (f : InventoryItem → InventoryItem) (d : InventoryItem) where
  pub length-map_first :
      (n : ℕ) (items : List InventoryItem) → length (map_first f n items) ≡ length items
  unfolding map_first
  length-map_first zero items = refl
  length-map_first (suc n) [] = refl
  length-map_first (suc n) (i ∷ items) = ap suc (length-map_first n items)

  pub get_or-map_first :
      {A : Type 0} (of : InventoryItem → A) (n ch : ℕ) (items : List InventoryItem)
      → ((i : InventoryItem) → of (f i) ≡ of i)
      → of (get_or (map_first f n items) ch d) ≡ of (get_or items ch d)
  unfolding map_first
  get_or-map_first of zero ch items h = refl
  get_or-map_first of (suc n) ch [] h = refl
  get_or-map_first of (suc n) zero (i ∷ items) h = h i
  get_or-map_first of (suc n) (suc ch) (i ∷ items) h = get_or-map_first of n ch items h

-- The bytes but the slot of a unit are kept.
pub byte-take_off :
    (kind : InventoryItem → Bool) (k : ℕ) (i : InventoryItem)
    → 4 ≢ k
    → (byte (take_off kind i).item k ≡ byte i.item k)
      × (byte (take_out kind i).item k ≡ byte i.item k)
unfolding take_off take_out
byte-take_off kind k i h = elim (Bool-cases (kind i && equipped i)) [
  | inl e ↦ rw e (refl, get_or-set_ne i.item.data_bytes 4 k 0 0 h)
  | inr e ↦ rw e (refl, refl)
]

-- The loops put nothing on.
pub equipped-take_off :
    (kind : InventoryItem → Bool) (i : InventoryItem)
    → equipped i ≡ false
    → (equipped (take_off kind i) ≡ false) × (equipped (take_out kind i) ≡ false)
unfolding take_off take_out
equipped-take_off kind i h = elim (Bool-cases (kind i && equipped i)) [
  | inl e ↦ rw e (equipped-taken_off i, equipped-taken_off i)
  | inr e ↦ rw e (h, h)
]

pub equipped-map_first :
    (f : InventoryItem → InventoryItem) (n ch : ℕ) (items : List InventoryItem) (d : InventoryItem)
    → ((i : InventoryItem) → equipped i ≡ false → equipped (f i) ≡ false)
    → equipped (get_or items ch d) ≡ false
    → equipped (get_or (map_first f n items) ch d) ≡ false
unfolding map_first
equipped-map_first f zero ch items d keep h = h
equipped-map_first f (suc n) ch [] d keep h = h
equipped-map_first f (suc n) zero (i ∷ items) d keep h = keep i h
equipped-map_first f (suc n) (suc ch) (i ∷ items) d keep h =
    equipped-map_first f n ch items d keep h
