-- ===== src/Moderation/Ignored.antt =====
-- Who is ignored after a toggle.
use tethealla.Base.{
  ℕ, zero, suc, ◌≤◌, ◌≡◌, ◌≢◌, refl, ap, ◌∙◌, List, [], ◌∷◌, ◌++◌, Bool, true, false, not, ◌||◌,
  Option, none, some, arith, ltb, ◌==◌, if◌then◌else◌, length, set, take, drop, Bool-cases,
  Option-cases, inl, inr, ==_refl,
}
use tethealla.Game.{find_index}
use tethealla.Moderation.{Ignores, is_player, stfu, toggle_stfu}
use tethealla.Moderation.Gaps.{survivors}
use tethealla.Moderation.Entries.{take-set_next, closed_entries}

-- The players that are ignored
abbrev pub ignored : Ignores → List ℕ
ignored s = take s.ship_ignore_count s.ship_ignore_list

abbrev pub nonzero : ℕ → Bool
nonzero entry = not (entry == 0)

-- What the list holds after a toggle, by the place at which the player was found
abbrev pub toggled : ℕ → Ignores → Option ℕ → List ℕ
toggled gc_num s place = elim place [
  | none ↦ if ltb s.ship_ignore_count 300 then ignored s ++ gc_num ∷ [] else ignored s
  | some ch ↦ survivors nonzero (drop 1 (set (ignored s) ch 0))
]

-- A player who is not ignored is added at the end, unless 300 are, and then nothing changes. A
-- player who is gives up the place, and with it everyone in the first place and every zero go.
pub toggle_stfu-ignored :
    (gc_num : ℕ) (s : Ignores)
    → s.ship_ignore_count ≤ 300
    → length s.ship_ignore_list ≡ 300
    → ignored (toggle_stfu gc_num s).0
      ≡ toggled gc_num s (find_index (is_player gc_num) s.ship_ignore_count s.ship_ignore_list)
unfolding toggle_stfu
toggle_stfu-ignored gc_num s count size =
    elim (Option-cases (find_index (is_player gc_num) s.ship_ignore_count s.ship_ignore_list)) [
      | inl absent ↦ elim (Bool-cases (ltb s.ship_ignore_count 300)) [
        | inl room ↦
            rw (toggle_stfu, absent, room)
              (take-set_next s.ship_ignore_count s.ship_ignore_list gc_num (ground arith))
        | inr full ↦ rw (toggle_stfu, absent, full) refl
      ]
      | inr (ch, found) ↦
          rw (toggle_stfu, found)
            (closed_entries nonzero 0 s.ship_ignore_count s.ship_ignore_list ch 0 (omega arith))
    ]

unfoldable pub has : ℕ → List ℕ → Bool
has gc_num [] = false
has gc_num (entry ∷ entries) = entry == gc_num || has gc_num entries

abbrev found_in : Option ℕ → Bool
found_in o = elim o [ none ↦ false | some ch ↦ true ]

found_step :
    (first : Bool) (later : Option ℕ) (h : Bool)
    → found_in later ≡ h
    → found_in
        (elim first [ true ↦ some 0 | false ↦ elim later [ none ↦ none | some i ↦ some (suc i) ] ])
      ≡ (first || h)
found_step true later h e = refl
found_step false none h e = e
found_step false (some i) h e = e

stfu-has_from :
    (gc_num n : ℕ) (xs : List ℕ)
    → found_in (find_index (is_player gc_num) n xs) ≡ has gc_num (take n xs)
unfolding find_index has
stfu-has_from gc_num zero xs = refl
stfu-has_from gc_num (suc n) [] = refl
stfu-has_from gc_num (suc n) (x ∷ xs) =
    found_step (x == gc_num) (find_index (is_player gc_num) n xs) (has gc_num (take n xs))
      (stfu-has_from gc_num n xs)

has-survivors : (a : ℕ) (xs : List ℕ) → has a xs ≡ false → has a (survivors nonzero xs) ≡ false
unfolding has survivors
has-survivors a [] h = refl
has-survivors a (x ∷ xs) h = ground (arith, has-survivors a xs)

has-set : (a : ℕ) (xs : List ℕ) (k : ℕ) → a ≢ 0 → has a xs ≡ false → has a (set xs k 0) ≡ false
unfolding has
has-set a [] k ne h = refl
has-set a (x ∷ xs) zero ne h = ground arith
has-set a (x ∷ xs) (suc k) ne h = ground (arith, has-set a xs k)

stfu-has : (gc_num : ℕ) (s : Ignores) → stfu gc_num s ≡ has gc_num (ignored s)
unfolding stfu
stfu-has gc_num s = stfu-has_from gc_num s.ship_ignore_count s.ship_ignore_list

-- A player in any place but the first is no longer ignored: then the player in the first place, who
-- was ignored, is not ignored any more either, where no later place holds the same number.
pub toggle_stfu-frees_first :
    (gc_num first : ℕ) (rest : List ℕ) (k : ℕ) (s : Ignores)
    → s.ship_ignore_count ≤ 300
    → length s.ship_ignore_list ≡ 300
    → ignored s ≡ first ∷ rest
    → find_index (is_player gc_num) s.ship_ignore_count s.ship_ignore_list ≡ some (suc k)
    → first ≢ 0
    → has first rest ≡ false
    → (stfu first s ≡ true) × (stfu first (toggle_stfu gc_num s).0 ≡ false)
unfolding has
toggle_stfu-frees_first gc_num first rest k s count size list found nonzero_first alone =
    let left : ignored (toggle_stfu gc_num s).0 ≡ survivors nonzero (set rest k 0) =
      toggle_stfu-ignored gc_num s count size
      ∙ (ap (toggled gc_num s) found
          ∙ ap (λ l. survivors nonzero (drop 1 (set l (suc k) 0))) list) in
    (
      stfu-has first s ∙ (ap (has first) list ∙ ap (λ b. b || has first rest) (==_refl first)),
      stfu-has first (toggle_stfu gc_num s).0
          ∙ (ap (has first) left
              ∙ has-survivors first (set rest k 0) (has-set first rest k nonzero_first alone)),
    )
