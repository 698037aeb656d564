-- ===== src/Floor/Compact.antt =====
-- `CleanUpGameInventory` closes the gaps of the list of links in place.
use tethealla.Base.{
  ℕ, zero, suc, ◌+◌, ◌-◌, ◌≤◌, ◌≡◌, refl, sym, ap, ◌∙◌, subst, List, [], ◌∷◌, ◌++◌, true, false,
  inl, inr, arith, ltb, ◌==◌, if◌then◌else◌, length, take, set, get_or, replicate, length-append,
  length-set, append-nil, append_assoc, Bool-cases, le→ltb, lt→ltb, take-append, take_all,
}
use tethealla.Item.{no_item}
use tethealla.Game.{Lobby}
use tethealla.Floor.{max_saved_items, compact, clean_up_game_inventory}

-- The links that lead to an item.
pub live : List ℕ → List ℕ
live [] = []
live (x ∷ xs) = if x == no_item then live xs else x ∷ live xs

get_or-append : (xs ys : List ℕ) (d : ℕ) → get_or (xs ++ ys) (length xs) d ≡ get_or ys 0 d
get_or-append [] ys d = refl
get_or-append (x ∷ xs) ys d = get_or-append xs ys d

set-append :
    (xs : List ℕ) (y : ℕ) (ys : List ℕ) (v : ℕ)
    → set (xs ++ (y ∷ ys)) (length xs) v ≡ xs ++ (v ∷ ys)
set-append [] y ys v = refl
set-append (x ∷ xs) y ys v = ap (λ r. x ∷ r) (set-append xs y ys v)

-- The loop with `kept` written, a `gap` of places read since, and `rest` to read.
record Compacts (n : ℕ) (kept rest : List ℕ) (out : List ℕ × ℕ) : Type 0 where
  count : out.1 ≡ length kept + length (live (take n rest))
  front : take out.1 out.0 ≡ kept ++ live (take n rest)

Compacts-free :
    {n : ℕ} {kept rest : List ℕ} {b : ℕ} {out : List ℕ × ℕ}
    → (b == no_item) ≡ true
    → Compacts n kept rest out
    → Compacts (suc n) kept (b ∷ rest) out
unfolding live
Compacts-free e c = record { count = rw e c.count; front = rw e c.front }

Compacts-used :
    {n : ℕ} {kept rest : List ℕ} {b : ℕ} {out : List ℕ × ℕ}
    → (b == no_item) ≡ false
    → Compacts n (kept ++ (b ∷ [])) rest out
    → Compacts (suc n) kept (b ∷ rest) out
unfolding live
Compacts-used {kept = kept} {b = b} e c = record {
  count = rw e (omega (arith, c.count, length-append kept (b ∷ [])));
  front = rw e (c.front ∙ append_assoc kept (b ∷ []) _);
}

module _ (n : ℕ) (kept gap : List ℕ) (b : ℕ) (rest : List ℕ) where
  abbrev links : List ℕ
  links = kept ++ (gap ++ (b ∷ rest))

  read_link : get_or links (length kept + length gap) no_item ≡ b
  read_link =
      let both : length kept + length gap ≡ length (kept ++ gap) = sym (length-append kept gap) in
      rw (both, ← append_assoc kept gap (b ∷ rest)) (get_or-append (kept ++ gap) (b ∷ rest) no_item)

  compact_free :
      (b == no_item) ≡ true
      → compact (suc n) (length kept + length gap) (length kept) links
        ≡ compact n (length kept + length gap + 1) (length kept) links
  unfolding compact
  compact_free e = rw (read_link, e)

  compact_used :
      (b == no_item) ≡ false
      → compact (suc n) (length kept + length gap) (length kept) links
        ≡ compact n (length kept + length gap + 1) (length kept + 1) (
            if ltb (length kept) (length kept + length gap)
            then set links (length kept) b
            else links)
  unfolding compact
  compact_used e = rw (read_link, e)

longer : (xs : List ℕ) (b : ℕ) → length xs + 1 ≡ length (xs ++ (b ∷ []))
longer xs b = omega (arith, length-append xs (b ∷ []))

regroup : (xs : List ℕ) (b : ℕ) (ys : List ℕ) → xs ++ (b ∷ ys) ≡ (xs ++ (b ∷ [])) ++ ys
regroup xs b ys = sym (append_assoc xs (b ∷ []) ys)

-- A link that is used goes to the end of those written.
round_used :
    (n : ℕ) (kept gap : List ℕ) (b : ℕ) (rest : List ℕ)
    → ((gap' : List ℕ)
        → Compacts n (kept ++ (b ∷ [])) rest (
            compact n
              (length (kept ++ (b ∷ [])) + length gap')
              (length (kept ++ (b ∷ [])))
              ((kept ++ (b ∷ [])) ++ (gap' ++ rest))))
    → Compacts n (kept ++ (b ∷ [])) rest (
        compact n (length kept + length gap + 1) (length kept + 1) (
          if ltb (length kept) (length kept + length gap)
          then set (links n kept gap b rest) (length kept) b
          else links n kept gap b rest))
round_used n kept [] b rest ih =
    let ch : length kept + 0 + 1 ≡ length (kept ++ (b ∷ [])) + 0 = omega (arith, longer kept b) in
    rw
      (le→ltb (length kept) (length kept + 0) (omega arith), ch, longer kept b, regroup kept b rest)
      (ih [])
round_used n kept (g ∷ gap) b rest ih =
    let ch : length kept + length (g ∷ gap) + 1
        ≡ length (kept ++ (b ∷ [])) + length (gap ++ (b ∷ [])) =
      omega (arith, longer kept b, longer gap b) in
    rw
      (
        lt→ltb (length kept) (length kept + length (g ∷ gap)) (omega arith),
        set-append kept g (gap ++ (b ∷ rest)) b,
        ch,
        longer kept b,
        regroup kept b (gap ++ (b ∷ rest)),
        regroup gap b rest,
      )
      (ih (gap ++ (b ∷ [])))

round :
    (n : ℕ) (kept gap rest : List ℕ)
    → n ≤ length rest
    → Compacts n kept rest
        (compact n (length kept + length gap) (length kept) (kept ++ (gap ++ rest)))
unfolding compact live
round zero kept gap rest h = record {
  count = omega arith;
  front = take-append kept (gap ++ rest) ∙ sym (append-nil kept);
}
round (suc n) kept gap [] h = absurd (omega arith)
round (suc n) kept gap (b ∷ rest) h = elim (Bool-cases (b == no_item)) [
  | inl e ↦
      let ch : length kept + length gap + 1 ≡ length kept + length (gap ++ (b ∷ [])) =
        omega (arith, longer gap b) in
      subst (Compacts (suc n) kept (b ∷ rest)) (sym (compact_free n kept gap b rest e)) (
        Compacts-free e
          (rw (ch, regroup gap b rest) (round n kept (gap ++ (b ∷ [])) rest (omega arith))))
  | inr e ↦ subst (Compacts (suc n) kept (b ∷ rest)) (sym (compact_used n kept gap b rest e)) (
      Compacts-used e
        (round_used n kept gap b rest (λ gap'. round n (kept ++ (b ∷ [])) gap' rest (omega arith))))
]

length-compact : (n ch k : ℕ) (links : List ℕ) → length (compact n ch k links).0 ≡ length links
unfolding compact
length-compact zero ch k links = refl
length-compact (suc n) ch k links = ground (
  arith,
  length-compact n (ch + 1) k links,
  length-compact n (ch + 1) (k + 1) links,
  length-compact n (ch + 1) (k + 1) (set links k (get_or links ch no_item)),
  length-set links k (get_or links ch no_item),
)

cleared :
    (found : List ℕ) (out : List ℕ × ℕ)
    → out.1 ≡ length found
    → take out.1 out.0 ≡ found
    → length out.0 ≡ max_saved_items
    → (if ltb out.1 max_saved_items
        then take out.1 out.0 ++ replicate (max_saved_items - out.1) no_item
        else out.0)
      ≡ found ++ replicate (max_saved_items - length found) no_item
cleared found out count front size = elim (Bool-cases (ltb out.1 max_saved_items)) [
  | inl room ↦ rw (room, front, count)
  | inr full ↦
      let none_left : max_saved_items - length found ≡ 0 = ground arith in
      rw (full, none_left, append-nil found) (sym (take_all out.1 out.0 (ground arith)) ∙ front)
]

-- `CleanUpGameInventory` of a list of 3000 links, of which the first `gameItemCount` may lead to
-- items, brings the links that do to the front in their order, counts them, and clears the rest;
-- it leaves the items.
pub clean_up_game_inventory_lem :
    (l : Lobby)
    → length l.game_item_list ≡ max_saved_items
    → l.game_item_count ≤ max_saved_items
    → let found = live (take l.game_item_count l.game_item_list) in
      let l' = clean_up_game_inventory l in
      (l'.game_item_count ≡ length found)
      × (l'.game_item_list ≡ found ++ replicate (max_saved_items - length found) no_item)
      × (l'.game_item ≡ l.game_item)
unfolding clean_up_game_inventory
clean_up_game_inventory_lem l size count =
    let found = live (take l.game_item_count l.game_item_list) in
    let c = round l.game_item_count [] [] l.game_item_list (omega arith) in
    let out = compact l.game_item_count 0 0 l.game_item_list in
    let k : out.1 ≡ length found = omega (arith, c.count) in
    (
      k,
      cleared found out k c.front (length-compact l.game_item_count 0 0 l.game_item_list ∙ size),
      refl,
    )
