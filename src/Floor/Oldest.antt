-- ===== src/Floor/Oldest.antt =====
-- The scan of `free_game_item` of ship_server.c for the oldest item that has been dropped.
use tethealla.Base.{
  ℕ, zero, suc, ◌+◌, ◌<◌, ◌≤◌, ◌≡◌, ◌⊎◌, inl, inr, refl, List, [], ◌∷◌, ◌&&◌, arith, ltb, leb,
  length, get_or, Bool-cases,
}
use tethealla.Item.{Item, zero_item}
use tethealla.Floor.{oldest_scan}

-- The item at `k` has been dropped by a player or a monster, with the lowest id of those.
pub record IsOldest (xs : List Item) (oldest k : ℕ) : Type 0 where
  pub inside : k < length xs
  pub dropped : 0x810000 ≤ (get_or xs k zero_item).itemid
  pub below : (get_or xs k zero_item).itemid < oldest
  pub lowest :
      (j : ℕ)
      → j < length xs
      → 0x810000 ≤ (get_or xs j zero_item).itemid
      → (get_or xs k zero_item).itemid ≤ (get_or xs j zero_item).itemid

-- No item has an id below `oldest` that is one of a dropped item.
abbrev pub NoneOlder : List Item → ℕ → Type 0
NoneOlder xs oldest =
    (j : ℕ)
    → j < length xs
    → 0x810000 ≤ (get_or xs j zero_item).itemid
    → oldest ≤ (get_or xs j zero_item).itemid

-- What the scan comes to, from the index `ch` on
abbrev pub Scanned : List Item → ℕ → ℕ → ℕ → ℕ → Type 0
Scanned xs ch ch2 oldest r =
    ((r ≡ ch2) × NoneOlder xs oldest) ⊎ ((k : ℕ) × (r ≡ ch + k) × IsOldest xs oldest k)

-- What holds of the first item and of the others
each :
    (P : Item → Type 0) (x : Item) (xs : List Item)
    → P x
    → ((j : ℕ) → j < length xs → P (get_or xs j zero_item))
    → (j : ℕ) → j < length (x ∷ xs)
    → P (get_or (x ∷ xs) j zero_item)
each P x xs first others zero p = first
each P x xs first others (suc j) p = others j (omega arith)

abbrev AtLeast : ℕ → Item → Type 0
AtLeast n i = 0x810000 ≤ i.itemid → n ≤ i.itemid

pub oldest_scan-Scanned :
    (ch : ℕ) (xs : List Item) (ch2 oldest : ℕ)
    → Scanned xs ch ch2 oldest (oldest_scan ch xs ch2 oldest)
unfolding oldest_scan
oldest_scan-Scanned ch [] ch2 oldest = inl (refl, λ j p d. absurd (omega arith))
oldest_scan-Scanned ch (x ∷ xs) ch2 oldest =
    elim (Bool-cases (ltb x.itemid oldest && leb 0x810000 x.itemid)) [
      | inl older ↦ rw older (elim (oldest_scan-Scanned (ch + 1) xs ch x.itemid) [
        | inl (same, none_older) ↦ inr (
          0,
          omega (arith, same),
          record {
            inside = omega arith;
            dropped = ground arith;
            below = ground arith;
            lowest = each (AtLeast x.itemid) x xs (λ d. omega arith) none_older;
          },
        )
        | inr (k, at, o) ↦ inr (
          suc k,
          omega (arith, at),
          record {
            inside = omega (arith, o.inside);
            dropped = o.dropped;
            below = let low = o.below in ground arith;
            lowest =
                each (AtLeast (get_or xs k zero_item).itemid) x xs (λ d. omega (arith, o.below))
                  o.lowest;
          },
        )
      ])
      | inr other ↦ rw other (elim (oldest_scan-Scanned (ch + 1) xs ch2 oldest) [
        | inl (same, none_older) ↦
            inl (same, each (AtLeast oldest) x xs (λ d. ground arith) none_older)
        | inr (k, at, o) ↦ inr (
          suc k,
          omega (arith, at),
          record {
            inside = omega (arith, o.inside);
            dropped = o.dropped;
            below = o.below;
            lowest =
                each (AtLeast (get_or xs k zero_item).itemid) x xs
                  (λ d. let low = o.below in ground arith) o.lowest;
          },
        )
      ])
    ]
