-- ===== src/Seats/Sought.antt =====
-- The search of Send67 of ship_server.c for a lobby with room.
use tethealla.Base.{
  ℕ, zero, suc, ◌+◌, ◌≤◌, ◌<◌, ◌≡◌, refl, subst, ◌∙◌, ◌⊎◌, inl, inr, List, true, false, arith,
  get_or, set, ltb, ltb→lt, ◌==◌, ==_iff, Bool-cases,
}
use tethealla.Seats.{Players, Visitor, no_players}
use tethealla.Seats.Lobby.{seat_visitor, seek_lobby}

abbrev pub lobby_at : List Players → ℕ → Players
lobby_at lobbies j = get_or lobbies j no_players

-- The search has passed full lobbies and stopped at the lobby `k`.
pub record Sought (v : Visitor) (lobbies : List Players) (ch k : ℕ) (r : Visitor × List Players)
    : Type 0 where
  pub from : ch ≤ k
  pub below : k < 15
  pub room : (lobby_at lobbies k).lobby_count < 12
  pub passed : (j : ℕ) → ch ≤ j → j < k → 12 ≤ (lobby_at lobbies j).lobby_count
  pub result : r ≡ (
    (seat_visitor k v (lobby_at lobbies k)).0,
    set lobbies k (seat_visitor k v (lobby_at lobbies k)).1,
  )

-- No lobby from `ch` on has room.
abbrev pub AllFull : List Players → ℕ → Type 0
AllFull lobbies ch = (j : ℕ) → ch ≤ j → j < 15 → 12 ≤ (get_or lobbies j no_players).lobby_count

module _ (v : Visitor) (lobbies : List Players) where
  seek_here :
      (n ch : ℕ)
      → ltb (lobby_at lobbies ch).lobby_count 12 ≡ true
      → seek_lobby (suc n) ch v lobbies ≡ (
        (seat_visitor ch v (lobby_at lobbies ch)).0,
        set lobbies ch (seat_visitor ch v (lobby_at lobbies ch)).1,
      )
  unfolding seek_lobby
  seek_here n ch room = rw room refl

  seek_later :
      (n ch : ℕ)
      → ltb (lobby_at lobbies ch).lobby_count 12 ≡ false
      → seek_lobby (suc n) ch v lobbies ≡ seek_lobby n (suc ch) v lobbies
  unfolding seek_lobby
  seek_later n ch full = rw full refl

  seek_end : (ch : ℕ) → seek_lobby 0 ch v lobbies ≡ (v, lobbies)
  unfolding seek_lobby
  seek_end ch = refl

  full_here :
      (ch j : ℕ)
      → (ch == j) ≡ true
      → ltb (lobby_at lobbies ch).lobby_count 12 ≡ false
      → 12 ≤ (lobby_at lobbies j).lobby_count
  full_here ch j here full =
      subst (λ k. 12 ≤ (lobby_at lobbies k).lobby_count) ((==_iff ch j).0 here) (ground arith)

  pub seek_lobby-Sought :
      (n ch : ℕ)
      → ch + n ≡ 15
      → (AllFull lobbies ch × (seek_lobby n ch v lobbies ≡ (v, lobbies)))
        ⊎ ((k : ℕ) × Sought v lobbies ch k (seek_lobby n ch v lobbies))
  seek_lobby-Sought zero ch e = inl ((λ j from below. absurd (omega arith)), seek_end ch)
  seek_lobby-Sought (suc n) ch e = elim (Bool-cases (ltb (lobby_at lobbies ch).lobby_count 12)) [
    | inl room ↦ inr (
      ch,
      record {
        from = omega arith;
        below = omega arith;
        room = ltb→lt (lobby_at lobbies ch).lobby_count 12 room;
        passed = λ j from below. absurd (omega arith);
        result = seek_here n ch room;
      },
    )
    | inr full ↦ elim (seek_lobby-Sought n (suc ch) (omega arith)) [
      | inl (all_full, same) ↦ inl (
        (λ j from below. elim (Bool-cases (ch == j)) [
          | inl here ↦ full_here ch j here full
          | inr other ↦ all_full j (ground arith) below
        ]),
        seek_later n ch full ∙ same,
      )
      | inr (k, s) ↦ inr (
        k,
        record {
          from = omega (arith, s.from);
          below = s.below;
          room = s.room;
          passed = λ j from below. elim (Bool-cases (ch == j)) [
            | inl here ↦ full_here ch j here full
            | inr other ↦ s.passed j (ground arith) below
          ];
          result = seek_later n ch full ∙ s.result;
        },
      )
    ]
  ]
