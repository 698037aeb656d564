-- ===== src/Progress/Climb.antt =====
-- The loops of `AddExp` and `SkipToLevel` go up level by level.
use tethealla.Base.{
  ℕ, zero, suc, ◌+◌, ◌≤◌, ◌<◌, ◌≡◌, ◌≢◌, ◌⊎◌, inl, inr, refl, ap, ◌∙◌, Bool, true, false, ◌||◌,
  some, arith, ltb, ◌==◌, Bool-cases, ==_iff, ltb→lt,
}
use tethealla.Game.{Stats, Client}
use tethealla.Progress.{level_up, level_loop, climb}
use tethealla.Progress.Thresholds.{tnlxp}

ltb_false→le : (a b : ℕ) → ltb a b ≡ false → b ≤ a
ltb_false→le a b h = ground arith

-- The levels that are left behind are those whose threshold is reached, and the last one is 199 or
-- one whose threshold is not.
pub record Climbed (k : ℕ) (c : Client) : Type 0 where
  pub bound : c.level + k ≤ 199
  pub passed : (level : ℕ) → c.level < level → level < c.level + k → tnlxp level ≤ c.xp
  pub settled : (c.level + k ≡ 199) ⊎ (c.xp < tnlxp (c.level + k))

either_true : (a b : Bool) → (a || b) ≡ true → (a ≡ true) ⊎ (b ≡ true)
either_true true b h = inl refl
either_true false b h = inr h

either_false : (a b : Bool) → (a || b) ≡ false → (a ≡ false) × (b ≡ false)
either_false true b h = cc
either_false false b h = (refl, h)

module _ (player_level_data : ℕ → ℕ → Stats) where
  abbrev up : Client → Client
  up = level_up player_level_data

  abbrev climbed : ℕ → Client → Client
  climbed = climb player_level_data

  level-level_up : (c : Client) → c.level < 65535 → (up c).level ≡ c.level + 1
  unfolding level_up
  level-level_up c h = omega arith

  xp-level_up : (c : Client) → (up c).xp ≡ c.xp
  unfolding level_up
  xp-level_up c = refl

  pub level-climb : (n : ℕ) (c : Client) → c.level + n < 65536 → (climbed n c).level ≡ c.level + n
  unfolding climb
  level-climb zero c h = omega arith
  level-climb (suc n) c h = omega (
    arith,
    level-level_up c (omega arith),
    level-climb n (up c) (omega (arith, level-level_up c (omega arith))),
  )

  pub xp-climb : (n : ℕ) (c : Client) → (climbed n c).xp ≡ c.xp
  unfolding climb
  xp-climb zero c = refl
  xp-climb (suc n) c = xp-climb n (up c) ∙ xp-level_up c

  -- The experience plays no part in the climb.
  pub climb-set_xp :
      (n xp : ℕ) (c : Client) → climbed n (record c { xp = xp }) ≡ record (climbed n c) { xp = xp }
  unfolding climb level_up
  climb-set_xp zero xp c = refl
  climb-set_xp (suc n) xp c = climb-set_xp n xp (up c)

  Climbed-suc :
      (k : ℕ) (c : Client)
      → c.level < 199
      → tnlxp (up c).level ≤ (up c).xp
      → Climbed (suc k) (up c)
      → Climbed (suc (suc k)) c
  Climbed-suc k c h reached r =
      let c' = up c in
      let e : c'.level ≡ c.level + 1 = level-level_up c (omega arith) in
      let x : c'.xp ≡ c.xp = xp-level_up c in
      let same : c'.level + suc k ≡ c.level + suc (suc k) = omega (arith, e) in
      record {
        bound = omega (arith, r.bound, e);
        passed = λ level p q. elim (Bool-cases (level == c'.level)) [
          | inl here ↦ omega (arith, ap tnlxp ((==_iff level c'.level).0 here), reached, x)
          | inr later ↦
              let ne : level ≢ c'.level = λ here. ground arith in
              omega (arith, r.passed level (omega (arith, ne)) (omega (arith, e)), x)
        ];
        settled = elim r.settled [
          | inl top ↦ inl (omega (arith, top, same))
          | inr short ↦ inr (omega (arith, short, ap tnlxp same, x))
        ];
      }

  pub level_loop-climb :
      (n : ℕ) (c : Client)
      → c.level < 199
      → 199 ≤ c.level + n
      → (k : ℕ) × (level_loop player_level_data n c ≡ some (climbed (suc k) c)) × Climbed (suc k) c
  unfolding level_loop climb
  level_loop-climb zero c h fuel = absurd (omega arith)
  level_loop-climb (suc n) c h fuel =
      let c' = up c in
      let e : c'.level ≡ c.level + 1 = level-level_up c (omega arith) in
      let x : c'.xp ≡ c.xp = xp-level_up c in
      elim (Bool-cases (c'.level == 199 || ltb c'.xp (tnlxp c'.level))) [
        | inl stop ↦ (
          0,
          rw stop,
          record {
            bound = omega arith;
            passed = λ level p q. absurd (omega arith);
            settled = elim (either_true (c'.level == 199) _ stop) [
              | inl top ↦ inl (omega (arith, e, (==_iff c'.level 199).0 top))
              | inr short ↦ inr (omega (arith, ltb→lt c'.xp (tnlxp c'.level) short, x, ap tnlxp e))
            ];
          },
        )
        | inr on ↦
            let (not_top, reached) = either_false (c'.level == 199) _ on in
            let ne : c'.level ≢ 199 = λ top. ground arith in
            let (k, done, r) = level_loop-climb n c' (omega arith) (omega arith) in
            (suc k, rw on done, Climbed-suc k c h (ltb_false→le _ _ reached) r)
      ]
