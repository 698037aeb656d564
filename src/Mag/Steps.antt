-- ===== src/Mag/Steps.antt =====
-- `MagSpecialEvolution` and `CheckMagEvolution`: an evolution never leads to a lower class.
use tethealla.Base.{
  ℕ, ◌%◌, ◌≤◌, ◌≡◌, ◌⊎◌, inl, inr, refl, Bool, true, false, not, ◌&&◌, ◌||◌, leb, ltb, ◌==◌,
  if◌then◌else◌, arith,
}
use tethealla.Mag.Evolve
use tethealla.Mag.Level50
use tethealla.Mag.Feed.{feed_class}
use tethealla.Mag.Classes.{
  Evolved, mag_lv10_evolution-Evolved, mag_lv35_evolution-Evolved, mag_lv50_evolution-Evolved,
}
use tethealla.Mag.{Mag}

-- The type of mag is the old one, or one of the fourth class.
abbrev Special : ℕ → ℕ → Type 0
Special old kind = (kind ≡ old) ⊎ (leb 4 (feed_class kind).0 ≡ true)

choice : {old k l : ℕ} (b : Bool) → Special old k → Special old l → Special old (if b then k else l)
choice true h k = h
choice false h k = k

abbrev Fourth : ℕ → Type 0
Fourth k = leb 4 (feed_class k).0 ≡ true

special_kind-Special :
    (type old a b c d e f : ℕ)
    → Fourth a
    → Fourth b
    → Fourth c
    → Fourth d
    → Fourth e
    → Fourth f
    → Special old (Evolve.special_kind type old a b c d e f)
unfolding Evolve.special_kind
special_kind-Special type old a b c d e f ha hb hc hd he hf =
    choice (type == 0x00 || type == 0x02) (inr ha) (
      choice (type == 0x01 || type == 0x09) (inr hb) (
        choice (type == 0x03 || type == 0x04) (inr hc) (
          choice (type == 0x05 || type == 0x0b) (inr hd) (
            choice (type == 0x07 || type == 0x0a) (inr he)
              (choice (type == 0x08 || type == 0x06) (inr hf) (inl refl))))))

Special-mtype :
    (section type : ℕ) (m : Mag)
    → Special m.mtype (Evolve.mag_special_evolution section type m).0.mtype
unfolding Evolve.mag_special_evolution feed_class
Special-mtype section type m =
    let old = m.mtype in
    choice (ltb m.level 100) (inl refl) (
      choice (section == 0 || (section == 3 || (section == 6 || section == 9)))
        (choice _ (special_kind-Special type old _ _ _ _ _ _ refl refl refl refl refl refl)
          (inl refl))
        (choice (section == 2 || (section == 5 || section == 8))
          (choice _ (special_kind-Special type old _ _ _ _ _ _ refl refl refl refl refl refl)
            (inl refl))
          (choice (section == 1 || (section == 7 || section == 4))
            (choice _ (special_kind-Special type old _ _ _ _ _ _ refl refl refl refl refl refl)
              (inl refl))
            (inl refl))))

retyped : (m : Mag) (k : ℕ) → Special m.mtype k → Evolved 4 m (record m { mtype = k })
retyped m k (inl e) = rw e Evolved.stays
retyped m k (inr h) = Evolved.evolves k m.pb_flags m.blasts h

weaken : {m m' : Mag} (c d : ℕ) → c ≤ d → Evolved d m m' → Evolved c m m'
weaken c d le Evolved.stays = Evolved.stays
weaken c d le (Evolved.evolves k f b h) = Evolved.evolves k f b (ground arith)

either_by :
    {c : ℕ} {m x y : Mag} (b : Bool)
    → ((b ≡ true) → Evolved c m x)
    → ((b ≡ false) → Evolved c m y)
    → Evolved c m (if b then x else y)
either_by true h k = h refl
either_by false h k = k refl

-- The class that a mag of a level has reached at least, once it is of the class ec or has evolved.
abbrev pub stage : ℕ → ℕ → ℕ
stage ec level =
    let due = if leb 50 level then 3 else if leb 35 level then 2 else 1 in
    if ltb ec due then due else ec

special_or_50 :
    (section type ec : ℕ) (m : Mag)
    → Evolved 3 m (
        let (m', changed) = Evolve.mag_special_evolution section type m in
        if changed then m' else Level50.mag_lv50_evolution section type ec m')
unfolding Evolve.mag_special_evolution
special_or_50 section type ec m =
    let s = Special-mtype section type m in
    let k = (Evolve.mag_special_evolution section type m).0.mtype in
    either_by (not (m.mtype == k)) (λ e. weaken 3 4 (omega arith) (retyped m k s))
      (λ e.
        let same : k ≡ m.mtype = ground arith in
        rw same (mag_lv50_evolution-Evolved section type ec m))

-- `CheckMagEvolution` changes no more than the type and the blasts of a mag, and a new type is of a
-- feeding class at least as high as the given class, from level 35 on of the second at least, from
-- level 50 on of the third at least.
pub check_mag_evolution-Evolved :
    (section type ec : ℕ) (m : Mag)
    → Evolved (stage ec m.level) m (Evolve.check_mag_evolution section type ec m)
unfolding Evolve.check_mag_evolution
check_mag_evolution-Evolved section type ec m =
    let c = stage ec m.level in
    either_by (ltb m.level 10 || leb 35 m.level)
      (λ e.
        either_by (ltb m.level 35 || leb 50 m.level)
          (λ e'.
            either_by (leb 50 m.level && (m.level % 5 == 0 && leb ec 3))
              (λ g. weaken c 3 (ground arith) (special_or_50 section type ec m))
              (λ g. Evolved.stays))
          (λ e'.
            either_by (ltb ec 2)
              (λ g. weaken c 2 (ground arith) (mag_lv35_evolution-Evolved section type ec m))
              (λ g. Evolved.stays)))
      (λ e.
        either_by (ec == 0) (λ g. weaken c 1 (ground arith) (mag_lv10_evolution-Evolved type m))
          (λ g. Evolved.stays))

rises :
    {c : ℕ} {m m' : Mag}
    → Evolved c m m'
    → (feed_class m.mtype).0 ≤ c
    → (feed_class m.mtype).0 ≤ (feed_class m'.mtype).0
rises Evolved.stays le = omega arith
rises (Evolved.evolves k f b h) le = ground arith

-- Checked with its own class, as `FeedMag` does, a mag never evolves to a type of a lower class.
pub check_mag_evolution-rises :
    (section type : ℕ) (m : Mag)
    → (feed_class m.mtype).0
      ≤ (feed_class (Evolve.check_mag_evolution section type (feed_class m.mtype).0 m).mtype).0
check_mag_evolution-rises section type m =
    let ec = (feed_class m.mtype).0 in
    rises (check_mag_evolution-Evolved section type ec m) (ground arith)
