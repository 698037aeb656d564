-- ===== src/Seats/Counted.antt =====
-- What the counts and the searches over the seats of a lobby say.
use tethealla.Base.{
  ℕ, zero, suc, ◌≤◌, ◌<◌, ◌≡◌, ◌≢◌, ◌∙◌, refl, inl, inr, Bool-cases, List, [], ◌∷◌, true, false,
  arith, length, set,
}
use tethealla.Seats.{Seat, occupied, seat, count_players}

count_yes :
    (n : ℕ) (s : Seat) (seats : List Seat)
    → occupied s ≡ true
    → count_players (suc n) (s ∷ seats) ≡ suc (count_players n seats)
unfolding count_players
count_yes n s seats e = ground arith

count_no :
    (n : ℕ) (s : Seat) (seats : List Seat)
    → occupied s ≡ false
    → count_players (suc n) (s ∷ seats) ≡ count_players n seats
unfolding count_players
count_no n s seats e = ground arith

-- Fewer players than seats leave a seat without a player.
pub count_players-free :
    (n : ℕ) (seats : List Seat)
    → n ≤ length seats
    → count_players n seats < n
    → (j : ℕ) × (j < n) × (occupied (seat seats j) ≡ false)
count_players-free zero seats h p = absurd (omega arith)
count_players-free (suc n) [] h p = absurd (omega arith)
count_players-free (suc n) (s ∷ seats) h p = elim (Bool-cases (occupied s)) [
  | inr empty ↦ (0, omega arith, empty)
  | inl full ↦
      let (j, below, empty) =
        count_players-free n seats (omega arith) (omega (arith, count_yes n s seats full)) in
      (suc j, omega arith, empty)
]

pub count_players-le : (n : ℕ) (seats : List Seat) → count_players n seats ≤ n
unfolding count_players
count_players-le zero seats = omega arith
count_players-le (suc n) [] = omega arith
count_players-le (suc n) (s ∷ seats) = let rest = count_players-le n seats in ground arith

-- A count that is not zero has counted a player.
pub count_players-some :
    (n : ℕ) (seats : List Seat)
    → count_players n seats ≢ 0
    → (j : ℕ) × (j < n) × (occupied (seat seats j) ≡ true)
unfolding count_players
count_players-some zero seats h = absurd (h refl)
count_players-some (suc n) [] h = absurd (h refl)
count_players-some (suc n) (s ∷ seats) h = elim (Bool-cases (occupied s)) [
  | inl full ↦ (0, omega arith, full)
  | inr empty ↦
      let (j, below, full) = count_players-some n seats (λ e. h (count_no n s seats empty ∙ e)) in
      (suc j, omega arith, full)
]

-- A player takes a seat that was empty.
pub count_players-set :
    (n ch : ℕ) (seats : List Seat) (s : Seat)
    → ch < n
    → ch < length seats
    → occupied (seat seats ch) ≡ false
    → occupied s ≡ true
    → count_players n (set seats ch s) ≡ suc (count_players n seats)
unfolding count_players
count_players-set zero ch seats s p q e f = absurd (omega arith)
count_players-set (suc n) ch [] s p q e f = absurd (omega arith)
count_players-set (suc n) zero (x ∷ seats) s p q e f =
    omega (arith, count_yes n s seats f, count_no n x seats e)
count_players-set (suc n) (suc ch) (x ∷ seats) s p q e f =
    let later = count_players-set n ch seats s (omega arith) (omega arith) e f in ground arith

-- What holds of the seats and of the one that is written holds of them after the write.
pub seat-set :
    (P : Seat → Type 0) (seats : List Seat) (ch j : ℕ) (s : Seat)
    → P (seat seats j)
    → P s
    → P (seat (set seats ch s) j)
seat-set P [] ch j s old new = old
seat-set P (x ∷ seats) zero zero s old new = new
seat-set P (x ∷ seats) zero (suc j) s old new = old
seat-set P (x ∷ seats) (suc ch) zero s old new = old
seat-set P (x ∷ seats) (suc ch) (suc j) s old new = seat-set P seats ch j s old new

-- The count looks only at which seats are taken.
pub count_players-same :
    (n : ℕ) (xs ys : List Seat)
    → length xs ≡ length ys
    → ((j : ℕ) → occupied (seat xs j) ≡ occupied (seat ys j))
    → count_players n xs ≡ count_players n ys
unfolding count_players
count_players-same zero xs ys e same = refl
count_players-same (suc n) [] [] e same = refl
count_players-same (suc n) [] (y ∷ ys) e same = absurd (omega arith)
count_players-same (suc n) (x ∷ xs) [] e same = absurd (omega arith)
count_players-same (suc n) (x ∷ xs) (y ∷ ys) e same =
    let rest = count_players-same n xs ys (omega arith) (λ j. same (suc j)) in
    let first = same 0 in ground arith

-- A player who is there is counted.
pub count_players-taken :
    (n j : ℕ) (seats : List Seat)
    → j < n
    → occupied (seat seats j) ≡ true
    → 0 < count_players n seats
unfolding count_players
count_players-taken zero j seats p full = absurd (omega arith)
count_players-taken (suc n) j [] p full = cc
count_players-taken (suc n) zero (x ∷ seats) p full = ground arith
count_players-taken (suc n) (suc j) (x ∷ seats) p full =
    let rest = count_players-taken n j seats (omega arith) full in ground arith
