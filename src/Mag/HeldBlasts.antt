-- ===== src/Mag/HeldBlasts.antt =====
-- The photon blasts that the flags and the blast byte of a mag stand for, and what `AddPB` adds.
use tethealla.Base.{
  ℕ, ◌+◌, ◌/◌, ◌%◌, ◌<◌, ◌≡◌, refl, List, [], ◌∷◌, ◌++◌, Bool, true, false, not, ◌&&◌, ◌||◌, ltb,
  leb, ◌==◌, if◌then◌else◌, arith, length,
}
use tethealla.Base.Bits.{all_below, all_below_sound}
use tethealla.Mag.{pb_exists, third_blast, add_pb}

-- The blast that stands in the third place under number v, where a and b stand in the other two: the
-- v-th of those left.
abbrev pub third_of : ℕ → ℕ → ℕ → ℕ
third_of a b v =
    let lo = if ltb a b then a else b in
    let hi = if ltb a b then b else a in
    let w = if leb lo v then v + 1 else v in if leb hi w then w + 1 else w

-- The blasts of a mag, in the order of their places.
unfoldable pub held : ℕ → ℕ → List ℕ
held flags blasts =
    let a = blasts % 8 in
    let b = blasts / 8 % 8 in
    let c = third_of a b (blasts / 64) in
    if flags % 2 == 0
    then []
    else if flags / 2 % 2 == 0
    then a ∷ []
    else if flags / 4 % 2 == 0
    then a ∷ b ∷ []
    else a ∷ b ∷ c ∷ []

-- A list of blasts holds one.
abbrev pub holds : ℕ → List ℕ → Bool
holds pb [] = false
holds pb (x ∷ xs) = x == pb || holds pb xs

-- Different blasts, each one of the six.
abbrev pub distinct : List ℕ → Bool
distinct [] = true
distinct (x ∷ xs) = ltb x 6 && (not (holds x xs) && distinct xs)

-- The flags and the blast byte of a mag are in order: the places fill up from the first, and what
-- they hold are different blasts.
unfoldable pub blasts_ok : ℕ → ℕ → Bool
unfolding held
blasts_ok flags blasts =
    (flags == 0 || (flags == 1 || (flags == 3 || flags == 7)))
    && (ltb blasts 256 && distinct (held flags blasts))

-- A blast more at the end, where it is new and a place is free.
abbrev pub learn : ℕ → List ℕ → List ℕ
learn pb xs = if holds pb xs || leb 3 (length xs) then xs else xs ++ pb ∷ []

same : List ℕ → List ℕ → Bool
same [] [] = true
same [] (y ∷ ys) = false
same (x ∷ xs) [] = false
same (x ∷ xs) (y ∷ ys) = x == y && same xs ys

same_eq : (xs ys : List ℕ) → same xs ys ≡ true → xs ≡ ys
unfolding same
same_eq [] [] h = refl
same_eq [] (y ∷ ys) h = cc
same_eq (x ∷ xs) [] h = cc
same_eq (x ∷ xs) (y ∷ ys) h = ground (arith, same_eq xs ys)

-- The claim at one input, as a test.
learns : ℕ → ℕ → ℕ → Bool
unfolding held add_pb pb_exists third_blast blasts_ok same
learns flags blasts pb =
    let (flags', blasts') = add_pb flags blasts pb in
    not (blasts_ok flags blasts)
    || (blasts_ok flags' blasts' && same (held flags' blasts') (learn pb (held flags blasts)))

row : ℕ → ℕ → Bool
unfolding learns all_below
row flags blasts = all_below 6 (learns flags blasts)

table : ℕ → Bool
unfolding row all_below
table flags = all_below 256 (row flags)

all_learn : all_below 8 table ≡ true
unfolding table row learns all_below held add_pb pb_exists third_blast blasts_ok same
all_learn = refl

in_range : (flags blasts : ℕ) → blasts_ok flags blasts ≡ true → (flags < 8) × (blasts < 256)
unfolding blasts_ok
in_range flags blasts ok = (ground arith, ground arith)

learnt :
    (flags blasts pb : ℕ) → blasts_ok flags blasts ≡ true → pb < 6 → learns flags blasts pb ≡ true
unfolding table row
learnt flags blasts pb ok six =
    let (f, b) = in_range flags blasts ok in
    all_below_sound 6 (learns flags blasts) pb
      (all_below_sound 256 (row flags) blasts (all_below_sound 8 table flags all_learn f) b) six

parts : (a b c : Bool) → a ≡ true → (not a || (b && c)) ≡ true → (b ≡ true) × (c ≡ true)
parts true true true h k = (refl, refl)
parts true true false h k = cc
parts true false c h k = cc
parts false b c h k = cc

-- Where the flags and the blast byte are in order, `AddPB` of one of the six blasts keeps them in
-- order, and the mag then holds the blasts it held, with the new one at the end where it did not
-- hold it yet and held fewer than three.
pub add_pb-learn :
    (flags blasts pb : ℕ)
    → blasts_ok flags blasts ≡ true
    → pb < 6
    → (blasts_ok (add_pb flags blasts pb).0 (add_pb flags blasts pb).1 ≡ true)
      × (held (add_pb flags blasts pb).0 (add_pb flags blasts pb).1 ≡ learn pb (held flags blasts))
unfolding learns
add_pb-learn flags blasts pb ok six =
    let flags' = (add_pb flags blasts pb).0 in
    let blasts' = (add_pb flags blasts pb).1 in
    let new = held flags' blasts' in
    let expected = learn pb (held flags blasts) in
    let (order, equal) =
      parts (blasts_ok flags blasts) (blasts_ok flags' blasts') (same new expected) ok
        (learnt flags blasts pb ok six) in
    (order, same_eq new expected equal)
