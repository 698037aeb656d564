-- ===== src/Progress/Reached.antt =====
-- Which level `AddExp` reaches, and that `SkipToLevel` is the same climb.
use tethealla.Base.{
  ℕ, suc, ◌+◌, ◌-◌, ◌%◌, ◌^◌, ◌≤◌, ◌<◌, ◌≡◌, ◌≢◌, ◌⊎◌, inl, inr, refl, ap, ap₂, sym, ◌∙◌, Bool,
  true, false, some, arith, ltb, leb, ◌==◌, Bool-cases, ==_iff, leb→le, ltb→lt,
}
use tethealla.Base.Bits.{all_below, all_below_sound}
use tethealla.Game.{Stats, Client, Room, send}
use tethealla.Progress.{experience_packet, level_packet, climb, add_exp_to, skip_to}
use tethealla.Progress.Thresholds.{tnlxp, tnlxp_mono}
use tethealla.Progress.Climb.{climb-set_xp, Climbed, level_loop-climb}

-- `k` levels are gained by the experience of the client: the threshold of each is reached, and the
-- last one is 199 or its threshold is not.
pub record Gains (k : ℕ) (c : Client) : Type 0 where
  pub bound : c.level + k ≤ 199
  pub passed : (level : ℕ) → c.level ≤ level → level < c.level + k → tnlxp level ≤ c.xp
  pub settled : (c.level + k ≡ 199) ⊎ (c.xp < tnlxp (c.level + k))

Gains-none : (c : Client) → c.level < 199 → leb (tnlxp c.level) c.xp ≡ false → Gains 0 c
Gains-none c h short =
    let same : c.level + 0 ≡ c.level = omega arith in
    record {
      bound = omega arith;
      passed = λ level p q. absurd (omega arith);
      settled = inr (ground (arith, ap tnlxp same));
    }

Gains-some : (k : ℕ) (c : Client) → tnlxp c.level ≤ c.xp → Climbed (suc k) c → Gains (suc k) c
Gains-some k c reached r = record {
  bound = r.bound;
  passed = λ level p q. elim (Bool-cases (level == c.level)) [
    | inl here ↦ omega (arith, ap tnlxp ((==_iff level c.level).0 here))
    | inr later ↦
        let ne : level ≢ c.level = λ here. ground arith in r.passed level (omega (arith, ne)) q
  ];
  settled = r.settled;
}

module _ (player_level_data : ℕ → ℕ → Stats) where
  -- A client with the experience added
  abbrev pub with_exp : ℕ → Client → Client
  with_exp xp c = record c { xp = (c.xp + xp) % 2 ^ 32 }

  -- Below level 199 `AddExp` ends, and it leaves the client with the experience added and some
  -- levels up. These are all that it has reached and no more: the threshold of each level that is
  -- left is reached, and the last level is 199 or its threshold is not reached.
  pub add_exp_to-Gains :
      (xp : ℕ) (r : Room)
      → r.client.level < 199
      → (r' : Room) × (add_exp_to player_level_data xp r ≡ some r')
        × ((k : ℕ) × (r'.client ≡ climb player_level_data k (with_exp xp r.client))
            × Gains k (with_exp xp r.client))
  unfolding add_exp_to climb
  add_exp_to-Gains xp r h =
      let c = with_exp xp r.client in
      let r₁ = send (experience_packet c xp) 0 (record r { client = c }) in
      elim (Bool-cases (leb (tnlxp c.level) c.xp)) [
        | inr short ↦ (r₁, rw short refl, (0, refl, Gains-none c h short))
        | inl reached ↦
            let (k, done, climbed) = level_loop-climb player_level_data 200 c h (omega arith) in
            let c' = climb player_level_data (suc k) c in
            (
              send (level_packet c') 0 (record r₁ { client = c' }),
              rw (reached, done) refl,
              (suc k, refl, Gains-some k c (leb→le _ _ reached) climbed),
            )
      ]

small_table : all_below 200 (λ level. ltb (tnlxp level) (2 ^ 32)) ≡ true
unfolding tnlxp all_below
small_table = refl

pub tnlxp-lt : (level : ℕ) → level < 200 → tnlxp level < 2 ^ 32
tnlxp-lt level h =
    ltb→lt (tnlxp level) (2 ^ 32)
      (all_below_sound 200 (λ level. ltb (tnlxp level) (2 ^ 32)) level small_table h)

-- A client with just the experience for a level gains the levels up to it.
Gains-exact :
    (k target : ℕ) (c : Client)
    → c.level < target
    → target ≤ 199
    → c.xp ≡ tnlxp (target - 1)
    → Gains k c
    → c.level + k ≡ target
Gains-exact k target c h top e g = elim (Bool-cases (ltb (c.level + k) target)) [
  | inl below ↦
      let short : c.level + k < target = ltb→lt _ _ below in
      absurd (elim g.settled [
        | inl at_top ↦ omega (arith, at_top)
        | inr less ↦ elim (Bool-cases (c.level + k == target - 1)) [
          | inl last ↦ omega (arith, ap tnlxp ((==_iff (c.level + k) (target - 1)).0 last))
          | inr before ↦
              let ne : c.level + k ≢ target - 1 = λ last. ground arith in
              omega (arith, tnlxp_mono (c.level + k) (target - 1) (omega (arith, ne)) (omega arith))
        ]
      ])
  | inr not_below ↦ elim (Bool-cases (ltb target (c.level + k))) [
    | inl above ↦
        let more : target < c.level + k = ltb→lt _ _ above in
        absurd (
          omega (
            arith,
            g.passed target (omega arith) more,
            tnlxp_mono (target - 1) target (omega arith) (omega (arith, g.bound)),
          ))
    | inr not_above ↦ ground arith
  ]
]

module _ (player_level_data : ℕ → ℕ → Stats) where
  client-skip_to :
      (target : ℕ) (quiet : Bool) (r : Room)
      → r.client.level < target
      → target ≤ 199
      → (skip_to player_level_data target quiet r).client
        ≡ record (climb player_level_data (target - r.client.level) r.client) {
          xp = tnlxp (target - 1);
        }
  unfolding skip_to
  client-skip_to target true r h top =
      let no_cap : ltb 199 target ≡ false = ground arith in
      let below : leb target r.client.level ≡ false = ground arith in rw (no_cap, below) refl
  client-skip_to target false r h top =
      let no_cap : ltb 199 target ≡ false = ground arith in
      let below : leb target r.client.level ≡ false = ground arith in rw (no_cap, below) refl

  -- To skip to a level above the client's is to add the experience that it lacks for that level:
  -- the clients that are left are the same, and the loop of `AddExp` ends.
  pub skip_to-add_exp_to :
      (target : ℕ) (quiet : Bool) (r : Room)
      → r.client.level < target
      → target ≤ 199
      → r.client.xp ≤ tnlxp (target - 1)
      → (r' : Room) × (add_exp_to player_level_data (tnlxp (target - 1) - r.client.xp) r ≡ some r')
        × (r'.client ≡ (skip_to player_level_data target quiet r).client)
  skip_to-add_exp_to target quiet r h top lacks =
      let xp = tnlxp (target - 1) - r.client.xp in
      let small = tnlxp-lt (target - 1) (omega arith) in
      let (r', e, (k, same, g)) = add_exp_to-Gains player_level_data xp r (omega arith) in
      let total : (r.client.xp + xp) % 2 ^ 32 ≡ tnlxp (target - 1) = omega (arith, small) in
      let exact = Gains-exact k target (with_exp player_level_data xp r.client) h top total g in
      let rounds : k ≡ target - r.client.level = omega (arith, exact) in
      (
        r',
        e,
        same
            ∙ (climb-set_xp player_level_data k ((r.client.xp + xp) % 2 ^ 32) r.client
                ∙ (ap₂ (λ n x. record (climb player_level_data n r.client) { xp = x }) rounds total
                    ∙ sym (client-skip_to target quiet r h top))),
      )
