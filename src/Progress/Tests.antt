-- ===== src/Progress/Tests.antt =====
-- The theorems on levels at a character of the first level, and runs of the functions.
use tethealla.Base.{ℕ, ◌-◌, ◌≡◌, refl, some, true, arith}
use tethealla.Game.{Stats, Room, no_stats}
use tethealla.Inventory.Sample.{hunter, room}
use tethealla.Progress.{climb, level_loop, level_up, add_exp_to, skip_to}
use tethealla.Progress.Thresholds.{tnlxp}
use tethealla.Progress.Reached.{Gains, with_exp, add_exp_to-Gains, skip_to-add_exp_to}

-- Each level adds five to the attack.
abbrev level_data : ℕ → ℕ → Stats
level_data char_class level = record no_stats { atp = 5 }

add_exp_to-Gains_example :
    (r' : Room) × (add_exp_to level_data 260 room ≡ some r')
    × ((k : ℕ) × (r'.client ≡ climb level_data k (with_exp level_data 260 hunter))
        × Gains k (with_exp level_data 260 hunter))
add_exp_to-Gains_example = add_exp_to-Gains level_data 260 room (omega arith)

skip_to-add_exp_to_example :
    (r' : Room) × (add_exp_to level_data (tnlxp 9 - 0) room ≡ some r')
    × (r'.client ≡ (skip_to level_data 10 true room).client)
unfolding tnlxp
skip_to-add_exp_to_example =
    skip_to-add_exp_to level_data 10 true room (omega arith) (omega arith) (omega arith)

-- With 260 of experience the thresholds 50, 150 and 250 are reached.
reaches_three :
    level_loop level_data 200 (record hunter { xp = 260 })
    ≡ some (record hunter { xp = 260; level = 3; stats = record no_stats { atp = 15 } })
unfolding level_loop level_up tnlxp
reaches_three = refl
