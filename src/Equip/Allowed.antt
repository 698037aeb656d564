-- ===== src/Equip/Allowed.antt =====
-- What `check_equip` decides, by evaluation over all flags.
use tethealla.Base.{
  ℕ, ◌<◌, ◌≡◌, refl, sym, ◌∙◌, Bool, true, false, not, ◌&&◌, bit_and, ◌==◌, if◌then◌else◌,
}
use tethealla.Base.Bits.{all_below, all_below_sound}
use tethealla.Equip.{check_equip}

-- Every flag of the class is among those of the item.
abbrev pub includes : ℕ → ℕ → Bool
includes eq_flags cl_flags = bit_and eq_flags cl_flags == cl_flags

abbrev same : Bool → Bool → Bool
same a b = if a then b else not b

same_eq : (a b : Bool) → same a b ≡ true → a ≡ b
same_eq true true h = refl
same_eq true false h = cc
same_eq false true h = cc
same_eq false false h = refl

abbrev allowed_test : ℕ → ℕ → Bool
allowed_test eq_flags cl_flags =
    same (check_equip eq_flags cl_flags) (includes eq_flags cl_flags)
    && same (check_equip (bit_and eq_flags cl_flags) cl_flags) (includes eq_flags cl_flags)

allowed_row : ℕ → Bool
unfolding all_below check_equip
allowed_row eq_flags = all_below 256 (allowed_test eq_flags)

allowed_table : all_below 256 allowed_row ≡ true
unfolding allowed_row
allowed_table = refl

both : (a b : Bool) → (a && b) ≡ true → (a ≡ true) × (b ≡ true)
both true b h = (refl, h)
both false b h = cc

-- An item may be worn exactly where its flags include all flags of the class. The mask that
-- `EquipItem` puts on the flags of a barrier changes nothing.
pub check_equip-includes :
    (eq_flags cl_flags : ℕ)
    → eq_flags < 256
    → cl_flags < 256
    → (check_equip eq_flags cl_flags ≡ includes eq_flags cl_flags)
      × (check_equip (bit_and eq_flags cl_flags) cl_flags ≡ check_equip eq_flags cl_flags)
unfolding allowed_row
check_equip-includes e c he hc =
    let row = all_below_sound 256 allowed_row e allowed_table he in
    let cell = all_below_sound 256 (allowed_test e) c row hc in
    let (plain, masked) = both (same (check_equip e c) (includes e c)) _ cell in
    let p = same_eq (check_equip e c) (includes e c) plain in
    let m = same_eq (check_equip (bit_and e c) c) (includes e c) masked in (p, m ∙ sym p)
