-- ===== src/Mag/Alignment.antt =====
-- What `MagAlignment` says of a mag's power, dex and mind.
use tethealla.Base.{ℕ, ◌+◌, ◌<◌, ◌≤◌, ◌≡◌, ◌↔◌, ◌⊎◌, inl, inr, sym, subst, ◌∙◌, arith}
use tethealla.Base.Int.{ℤ, pos_part, neg_part, ◌<ℤ◌}
use tethealla.Mag.{Mag, mag_alignment}

-- The first of three numbers is greater than the others.
abbrev pub Leads : ℤ → ℤ → ℤ → Type 0
Leads a b c = (b <ℤ a) × (c <ℤ a)

-- Two of three numbers are equal, and the third is not greater.
abbrev pub Ties : ℤ → ℤ → ℤ → Type 0
Ties a b c =
    (pos_part a + neg_part b ≡ pos_part b + neg_part a)
    × (pos_part c + neg_part a ≤ pos_part a + neg_part c)

alignment_power : (m : Mag) → Leads m.power m.dex m.mind → mag_alignment m ≡ 0x08
unfolding mag_alignment
alignment_power m h = ground arith

alignment_dex : (m : Mag) → Leads m.dex m.power m.mind → mag_alignment m ≡ 0x10
unfolding mag_alignment
alignment_dex m h = ground arith

alignment_mind : (m : Mag) → Leads m.mind m.power m.dex → mag_alignment m ≡ 0x20
unfolding mag_alignment
alignment_mind m h = ground arith

alignment_tie :
    (m : Mag)
    → (Ties m.power m.dex m.mind ⊎ (Ties m.power m.mind m.dex ⊎ Ties m.dex m.mind m.power))
    → mag_alignment m ≡ 0x100
unfolding mag_alignment
alignment_tie m h = ground arith

-- What each value of `MagAlignment` stands for.
abbrev pub Aligned : Mag → ℕ → Type 0
Aligned m a =
    ((a ≡ 0x08) × Leads m.power m.dex m.mind)
    ⊎ (((a ≡ 0x10) × Leads m.dex m.power m.mind)
        ⊎ (((a ≡ 0x20) × Leads m.mind m.power m.dex)
            ⊎ ((a ≡ 0x100)
                × (Ties m.power m.dex m.mind
                    ⊎ (Ties m.power m.mind m.dex ⊎ Ties m.dex m.mind m.power)))))

cases :
    (a b c : ℕ)
    → ((b < a) × (c < a))
      ⊎ (((a < b) × (c < b))
          ⊎ (((a < c) × (b < c))
              ⊎ (((a ≡ b) × (c ≤ a)) ⊎ (((a ≡ c) × (b ≤ a)) ⊎ ((b ≡ c) × (a ≤ b))))))
cases a b c = grind arith

-- Three integers, moved up so that none is negative, compare as they did.
abbrev lifted : ℤ → ℤ → ℤ → ℕ
lifted a b c = pos_part a + neg_part b + neg_part c

tied :
    (m : Mag)
    → (Ties m.power m.dex m.mind ⊎ (Ties m.power m.mind m.dex ⊎ Ties m.dex m.mind m.power))
    → Aligned m (mag_alignment m)
tied m t = inr (inr (inr (alignment_tie m t, t)))

aligned : (m : Mag) → Aligned m (mag_alignment m)
aligned m =
    let p = lifted m.power m.dex m.mind in
    let d = lifted m.dex m.power m.mind in
    let k = lifted m.mind m.power m.dex in
    elim (cases p d k) [
      | inl h ↦ let l : Leads m.power m.dex m.mind = omega arith in inl (alignment_power m l, l)
      | inr (inl h) ↦
          let l : Leads m.dex m.power m.mind = omega arith in inr (inl (alignment_dex m l, l))
      | inr (inr (inl h)) ↦
          let l : Leads m.mind m.power m.dex = omega arith in
          inr (inr (inl (alignment_mind m l, l)))
      | inr (inr (inr (inl h))) ↦ let t : Ties m.power m.dex m.mind = omega arith in tied m (inl t)
      | inr (inr (inr (inr (inl h)))) ↦
          let t : Ties m.power m.mind m.dex = omega arith in tied m (inr (inl t))
      | inr (inr (inr (inr (inr h)))) ↦
          let t : Ties m.dex m.mind m.power = omega arith in tied m (inr (inr t))
    ]

-- `MagAlignment` answers 0x08, 0x10 or 0x20 exactly where power, dex or mind is greater than the
-- two others, 0x100 exactly where the greatest value is shared, and nothing else.
pub mag_alignment-Aligned : (m : Mag) (a : ℕ) → (mag_alignment m ≡ a) ↔ Aligned m a
mag_alignment-Aligned m a = (λ e. subst (Aligned m) e (aligned m), back)
  where
    back : Aligned m a → mag_alignment m ≡ a
    back (inl (e, l)) = alignment_power m l ∙ sym e
    back (inr (inl (e, l))) = alignment_dex m l ∙ sym e
    back (inr (inr (inl (e, l)))) = alignment_mind m l ∙ sym e
    back (inr (inr (inr (e, t)))) = alignment_tie m t ∙ sym e
