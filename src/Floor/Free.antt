-- ===== src/Floor/Free.antt =====
-- The place that `free_game_item` finds for a new item of the game.
use tethealla.Base.{
  ℕ, ◌<◌, ◌≤◌, ◌≡◌, ◌≢◌, ◌⊎◌, inl, inr, refl, sym, subst, ◌∷◌, true, false, ◌&&◌, arith, ltb, ◌==◌,
  length, take, take_all, Bool-cases, Option-cases, ==_iff,
}
use tethealla.Item.{Item, zero_item, no_item}
use tethealla.Game.{Room, send_ee, find_index}
use tethealla.Game.Find.{find_index-Found, find_index-none}
use tethealla.Floor.Oldest.{Scanned, oldest_scan-Scanned}
use tethealla.Floor.{max_saved_items, oldest_scan, item_at, set_item, evict, free_game_item}

-- No place of the game is free.
abbrev IsFull : Room → Type 0
IsFull r = (j : ℕ) → j < max_saved_items → (item_at r.lobby j).itemid ≢ 0

-- The place is free, and the one after the linked items where that is; nothing changes.
pub record IsVacant (r : Room) (out : Room × ℕ) : Type 0 where
  pub below : out.1 < max_saved_items
  pub free : (item_at r.lobby out.1).itemid ≡ 0
  pub first :
      r.lobby.game_item_count < max_saved_items
      → (item_at r.lobby r.lobby.game_item_count).itemid ≡ 0
      → out.1 ≡ r.lobby.game_item_count
  pub same : out.0 ≡ r

-- No place is free, and the dropped item of the lowest id gives its place up; nothing else changes.
pub record IsEvicted (r : Room) (out : Room × ℕ) : Type 0 where
  pub full : IsFull r
  pub below : out.1 < max_saved_items
  pub dropped : 0x810000 ≤ (item_at r.lobby out.1).itemid
  pub lowest :
      (j : ℕ)
      → j < max_saved_items
      → 0x810000 ≤ (item_at r.lobby j).itemid
      → (item_at r.lobby out.1).itemid ≤ (item_at r.lobby j).itemid
  pub gone :
      out.0
      ≡ record r { lobby = set_item r.lobby out.1 (record (item_at r.lobby out.1) { itemid = 0 }) }

-- No place is free and no item has been dropped: the players are warned.
pub record IsWarned (r : Room) (out : Room × ℕ) : Type 0 where
  pub full : IsFull r
  pub none_dropped :
      (j : ℕ)
      → j < max_saved_items
      → 0x810000 ≤ (item_at r.lobby j).itemid
      → no_item ≤ (item_at r.lobby j).itemid
  pub zeroth : out.1 ≡ 0
  pub warned : out.0 ≡ record r {
    sent =
        send_ee "Lobby inventory problem!  It's advised you quit this game and recreate it."
        ∷ r.sent;
  }

abbrev pub IsPlace : Room → Room × ℕ → Type 0
IsPlace r out = IsVacant r out ⊎ (IsEvicted r out ⊎ IsWarned r out)

is_index : (n k : ℕ) → n ≡ k → k < max_saved_items → (n == no_item) ≡ false
is_index n k same below = ground arith

module _ (r : Room) (size : length r.lobby.game_item ≡ max_saved_items) where
  scanned :
      Scanned r.lobby.game_item 0 no_item no_item
        (oldest_scan 0 (take max_saved_items r.lobby.game_item) no_item no_item)
  scanned =
      subst (λ xs. Scanned r.lobby.game_item 0 no_item no_item (oldest_scan 0 xs no_item no_item))
        (sym (take_all max_saved_items r.lobby.game_item (omega (arith, size))))
        (oldest_scan-Scanned 0 r.lobby.game_item no_item no_item)

  evict-IsPlace : IsFull r → IsPlace r (evict r)
  unfolding evict
  evict-IsPlace full =
      let ch2 = oldest_scan 0 (take max_saved_items r.lobby.game_item) no_item no_item in
      elim scanned [
        | inl (same, none_older) ↦
            let nobody : (ch2 == no_item) ≡ true = ground arith in
            rw nobody (
              inr (
                inr (record {
                  full = full;
                  none_dropped = λ j p d. none_older j (omega (arith, size)) d;
                  zeroth = refl;
                  warned = refl;
                })))
        | inr (k, at, o) ↦
            let there : ch2 ≡ k = omega (arith, at) in
            let here = is_index ch2 k there (omega (arith, o.inside, size)) in
            rw (here, there)
              (inr (
                inl (record {
                  full = full;
                  below = omega (arith, o.inside, size);
                  dropped = o.dropped;
                  lowest = λ j p d. o.lowest j (omega (arith, size)) d;
                  gone = refl;
                })))
      ]

-- In a game of 3000 places `free_game_item` answers a place below 3000. That is a free one, the
-- one after the linked items if it is free, and nothing changes; or all are taken, and it is the
-- place of the dropped item (one with an id of 0x810000 or more) with the lowest id, which is
-- deleted alone; or there is no dropped item with an id below 0xFFFFFFFF either, the players are
-- warned, and the answer is 0.
pub free_game_item-IsPlace :
    (r : Room) → length r.lobby.game_item ≡ max_saved_items → IsPlace r (free_game_item r)
unfolding free_game_item
free_game_item-IsPlace r size =
    let l = r.lobby in
    elim (Bool-cases
      (ltb l.game_item_count max_saved_items && (item_at l l.game_item_count).itemid == 0)) [
        | inl e ↦ rw e (
            inl (record {
              below = ground arith;
              free = ground arith;
              first = λ p f. refl;
              same = refl;
            }))
        | inr e ↦
            elim (Option-cases (find_index (λ i. i.itemid == 0) max_saved_items l.game_item)) [
              | inl none_free ↦
                  rw (e, none_free)
                    (evict-IsPlace r size (λ j p. λ z.
                      let taken =
                        find_index-none (λ (i : Item). i.itemid == 0) zero_item max_saved_items
                          l.game_item none_free j p (omega (arith, size)) in
                      ground arith))
              | inr (ch2, free) ↦
                  let f = find_index-Found (λ i. i.itemid == 0) zero_item _ _ ch2 free in
                  rw (e, free)
                    (inl (record {
                      below = f.below;
                      free = (==_iff _ _).0 f.passes;
                      first = λ p z. absurd (ground arith);
                      same = refl;
                    }))
            ]
      ]
