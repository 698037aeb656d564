-- ===== src/Seats/Leader.antt =====
-- The loop of removeClientFromLobby that looks for the player who has been in the game longest.
use tethealla.Base.{
  ℕ, zero, suc, ◌+◌, ◌≤◌, ◌<◌, ◌≡◌, refl, sym, subst, List, Bool, true, false, ◌⊎◌, inl, inr, arith,
  ◌==◌, ==_iff, Bool-cases, ltb, ◌&&◌, if◌then◌else◌,
}
use tethealla.Seats.{Seat, occupied, seat, choose_leader}

-- After the indices below `ch`: nobody there joined before `lowest_id`, which is still the start
-- value or that of the player at `leader`, below `limit`.
pub record Scanned (seats : List Seat) (ch limit start lowest_id leader : ℕ) : Type 0 where
  pub oldest :
      (j : ℕ) → j < ch → occupied (seat seats j) ≡ true → lowest_id ≤ (seat seats j).game_player_id
  pub place :
      (lowest_id ≡ start)
      ⊎ (leader < limit)
        × (occupied (seat seats leader) ≡ true)
        × ((seat seats leader).game_player_id ≡ lowest_id)

-- A player below `limit` sits at `leader`, and no other has joined before.
pub record Oldest (seats : List Seat) (limit leader : ℕ) : Type 0 where
  pub below : leader < limit
  pub taken : occupied (seat seats leader) ≡ true
  pub oldest :
      (j : ℕ)
      → j < limit
      → occupied (seat seats j) ≡ true
      → (seat seats leader).game_player_id ≤ (seat seats j).game_player_id

module _ (seats : List Seat) (limit start : ℕ) where
  -- One index further, where the player there is taken, or not
  scan_taken :
      (ch lowest_id leader : ℕ)
      → ch < limit
      → Scanned seats ch limit start lowest_id leader
      → occupied (seat seats ch) ≡ true
      → (seat seats ch).game_player_id < lowest_id
      → Scanned seats (suc ch) limit start (seat seats ch).game_player_id ch
  scan_taken ch lowest_id leader p s full older = record {
    oldest = λ j q f. elim (Bool-cases (j == ch)) [
      | inl same ↦ let here : j ≡ ch = (==_iff j ch).0 same in rw here (omega arith)
      | inr other ↦ omega (arith, s.oldest j (ground arith) f)
    ];
    place = inr (p, full, refl);
  }

  scan_kept :
      (ch lowest_id leader : ℕ)
      → Scanned seats ch limit start lowest_id leader
      → (occupied (seat seats ch) ≡ true → lowest_id ≤ (seat seats ch).game_player_id)
      → Scanned seats (suc ch) limit start lowest_id leader
  scan_kept ch lowest_id leader s kept = record {
    oldest = λ j q f. elim (Bool-cases (j == ch)) [
      | inl same ↦
          let here : j ≡ ch = (==_iff j ch).0 same in
          subst (λ k. occupied (seat seats k) ≡ true → lowest_id ≤ (seat seats k).game_player_id)
            (sym here) kept f
      | inr other ↦ s.oldest j (ground arith) f
    ];
    place = s.place;
  }

  scan_step :
      (ch lowest_id leader : ℕ) (older : Bool)
      → ch < limit
      → Scanned seats ch limit start lowest_id leader
      → (occupied (seat seats ch) && ltb (seat seats ch).game_player_id lowest_id) ≡ older
      → Scanned seats
          (suc ch)
          limit
          start
          (if older then (seat seats ch).game_player_id else lowest_id)
          (if older then ch else leader)
  scan_step ch lowest_id leader true p s e =
      scan_taken ch lowest_id leader p s (ground arith) (ground arith)
  scan_step ch lowest_id leader false p s e = scan_kept ch lowest_id leader s (λ full. ground arith)

  pub choose_leader-Scanned :
      (n ch last lowest_id leader : ℕ)
      → ch + n ≡ last
      → last ≤ limit
      → Scanned seats ch limit start lowest_id leader
      → Scanned seats last limit start
          (choose_leader n ch seats lowest_id leader).0
          (choose_leader n ch seats lowest_id leader).1
  unfolding choose_leader
  choose_leader-Scanned zero ch last lowest_id leader e p s =
      let here : ch ≡ last = omega arith in
      subst (λ k. Scanned seats k limit start lowest_id leader) here s
  choose_leader-Scanned (suc n) ch last lowest_id leader e p s =
      let older = occupied (seat seats ch) && ltb (seat seats ch).game_player_id lowest_id in
      choose_leader-Scanned n (suc ch) last
        (if older then (seat seats ch).game_player_id else lowest_id) (if older then ch else leader)
        (omega arith) p (scan_step ch lowest_id leader older (omega arith) s refl)

  -- Where there is a player below the limit who joined before the start value, the loop ends at
  -- one of the first players to have joined.
  pub choose_leader-Oldest :
      (leader j : ℕ)
      → j < limit
      → occupied (seat seats j) ≡ true
      → (seat seats j).game_player_id < start
      → Oldest seats limit (choose_leader limit 0 seats start leader).1
  choose_leader-Oldest leader j p full early =
      let s =
        choose_leader-Scanned limit 0 limit start leader (omega arith) (omega arith)
          (record { oldest = λ j q f. absurd (omega arith); place = inl refl }) in
      elim s.place [
        | inl same ↦ absurd (omega (arith, s.oldest j p full))
        | inr (below, taken, value) ↦ record {
          below = below;
          taken = taken;
          oldest = λ k q f. omega (arith, s.oldest k q f);
        }
      ]
