-- ===== src/Mag/FeedTables.antt =====
-- The feeding tables of ship_server/def_tables.h.
use tethealla.Base.{List, [], ◌∷◌, ◌++◌}
use tethealla.Base.Int.{ℤ, pos, negsuc}

-- A row, for a kind of food: the change of synchro, IQ, defense, power, dex and mind.
abbrev pub food : ℤ → ℤ → ℤ → ℤ → ℤ → ℤ → List ℤ
food synchro iq defense power dex mind = synchro ∷ iq ∷ defense ∷ power ∷ dex ∷ mind ∷ []

abbrev pub feed_table0 : List ℤ
feed_table0 =
    food (pos 3) (pos 3) (pos 5) (pos 40) (pos 5) (pos 0)
    ++ food (pos 3) (pos 3) (pos 10) (pos 45) (pos 5) (pos 0)
    ++ food (pos 4) (pos 4) (pos 15) (pos 50) (pos 10) (pos 0)
    ++ food (pos 3) (pos 3) (pos 5) (pos 0) (pos 5) (pos 40)
    ++ food (pos 3) (pos 3) (pos 10) (pos 0) (pos 5) (pos 45)
    ++ food (pos 4) (pos 4) (pos 15) (pos 0) (pos 10) (pos 50)
    ++ food (pos 3) (pos 3) (pos 5) (pos 10) (pos 40) (pos 0)
    ++ food (pos 3) (pos 3) (pos 5) (pos 0) (pos 44) (pos 10)
    ++ food (pos 4) (pos 1) (pos 15) (pos 30) (pos 15) (pos 25)
    ++ food (pos 4) (pos 1) (pos 15) (pos 25) (pos 15) (pos 30)
    ++ food (pos 6) (pos 5) (pos 25) (pos 25) (pos 25) (pos 25)

abbrev pub feed_table1 : List ℤ
feed_table1 =
    food (pos 0) (pos 0) (pos 5) (pos 10) (pos 0) (negsuc 0)
    ++ food (pos 2) (pos 1) (pos 6) (pos 15) (pos 3) (negsuc 2)
    ++ food (pos 3) (pos 2) (pos 12) (pos 21) (pos 4) (negsuc 6)
    ++ food (pos 0) (pos 0) (pos 5) (pos 0) (pos 0) (pos 8)
    ++ food (pos 2) (pos 1) (pos 7) (pos 0) (pos 3) (pos 13)
    ++ food (pos 3) (pos 2) (pos 7) (negsuc 6) (pos 6) (pos 19)
    ++ food (pos 0) (pos 1) (pos 0) (pos 5) (pos 15) (pos 0)
    ++ food (pos 2) (pos 0) (negsuc 0) (pos 0) (pos 14) (pos 5)
    ++ food (negsuc 1) (pos 2) (pos 10) (pos 11) (pos 8) (pos 0)
    ++ food (pos 3) (negsuc 1) (pos 9) (pos 0) (pos 9) (pos 11)
    ++ food (pos 4) (pos 3) (pos 14) (pos 9) (pos 18) (pos 11)

abbrev pub feed_table2 : List ℤ
feed_table2 =
    food (pos 0) (negsuc 0) (pos 1) (pos 9) (pos 0) (negsuc 4)
    ++ food (pos 3) (pos 0) (pos 1) (pos 13) (pos 0) (negsuc 9)
    ++ food (pos 4) (pos 1) (pos 8) (pos 16) (pos 2) (negsuc 14)
    ++ food (pos 0) (negsuc 0) (pos 0) (negsuc 4) (pos 0) (pos 9)
    ++ food (pos 3) (pos 0) (pos 4) (negsuc 9) (pos 0) (pos 13)
    ++ food (pos 3) (pos 2) (pos 6) (negsuc 14) (pos 5) (pos 17)
    ++ food (negsuc 0) (pos 1) (negsuc 4) (pos 4) (pos 12) (negsuc 4)
    ++ food (pos 0) (pos 0) (negsuc 4) (negsuc 5) (pos 11) (pos 4)
    ++ food (pos 4) (negsuc 1) (pos 0) (pos 11) (pos 3) (negsuc 4)
    ++ food (negsuc 0) (pos 1) (pos 4) (negsuc 4) (pos 0) (pos 11)
    ++ food (pos 4) (pos 2) (pos 7) (pos 8) (pos 6) (pos 9)

abbrev pub feed_table3 : List ℤ
feed_table3 =
    food (pos 0) (negsuc 0) (pos 0) (pos 3) (pos 0) (pos 0)
    ++ food (pos 2) (pos 0) (pos 5) (pos 7) (pos 0) (negsuc 4)
    ++ food (pos 3) (pos 1) (pos 4) (pos 14) (pos 6) (negsuc 9)
    ++ food (pos 0) (pos 0) (pos 0) (pos 0) (pos 0) (pos 4)
    ++ food (pos 0) (pos 1) (pos 4) (negsuc 4) (pos 0) (pos 8)
    ++ food (pos 2) (pos 2) (pos 4) (negsuc 9) (pos 3) (pos 15)
    ++ food (negsuc 2) (pos 3) (pos 0) (pos 0) (pos 7) (pos 0)
    ++ food (pos 3) (pos 0) (negsuc 3) (negsuc 4) (pos 20) (negsuc 4)
    ++ food (pos 3) (negsuc 1) (negsuc 9) (pos 9) (pos 6) (pos 9)
    ++ food (negsuc 1) (pos 2) (pos 8) (pos 5) (negsuc 7) (pos 7)
    ++ food (pos 3) (pos 2) (pos 7) (pos 7) (pos 7) (pos 7)

abbrev pub feed_table4 : List ℤ
feed_table4 =
    food (pos 2) (negsuc 0) (negsuc 4) (pos 9) (negsuc 4) (pos 0)
    ++ food (pos 2) (pos 0) (pos 0) (pos 11) (pos 0) (negsuc 9)
    ++ food (pos 0) (pos 1) (pos 4) (pos 14) (pos 0) (negsuc 14)
    ++ food (pos 2) (negsuc 0) (negsuc 4) (pos 0) (negsuc 5) (pos 10)
    ++ food (pos 2) (pos 0) (pos 0) (negsuc 9) (pos 0) (pos 11)
    ++ food (pos 0) (pos 1) (pos 4) (negsuc 14) (pos 0) (pos 15)
    ++ food (pos 2) (negsuc 0) (negsuc 4) (negsuc 4) (pos 16) (negsuc 4)
    ++ food (negsuc 1) (pos 3) (pos 7) (negsuc 2) (pos 0) (negsuc 2)
    ++ food (pos 4) (negsuc 1) (pos 5) (pos 21) (negsuc 4) (negsuc 19)
    ++ food (pos 3) (pos 0) (negsuc 4) (negsuc 19) (pos 5) (pos 21)
    ++ food (pos 3) (pos 2) (pos 4) (pos 6) (pos 8) (pos 5)

abbrev pub feed_table5 : List ℤ
feed_table5 =
    food (pos 2) (negsuc 0) (negsuc 3) (pos 13) (negsuc 4) (negsuc 4)
    ++ food (pos 0) (pos 1) (pos 0) (pos 16) (pos 0) (negsuc 14)
    ++ food (pos 2) (pos 0) (pos 3) (pos 19) (negsuc 1) (negsuc 17)
    ++ food (pos 2) (negsuc 0) (negsuc 3) (negsuc 4) (negsuc 4) (pos 13)
    ++ food (pos 0) (pos 1) (pos 0) (negsuc 14) (pos 0) (pos 16)
    ++ food (pos 2) (pos 0) (pos 3) (negsuc 19) (pos 0) (pos 19)
    ++ food (pos 0) (pos 1) (pos 5) (negsuc 5) (pos 6) (negsuc 4)
    ++ food (negsuc 0) (pos 1) (pos 0) (negsuc 3) (pos 14) (negsuc 9)
    ++ food (pos 4) (negsuc 0) (pos 4) (pos 17) (negsuc 4) (negsuc 14)
    ++ food (pos 2) (pos 0) (negsuc 9) (negsuc 14) (pos 5) (pos 21)
    ++ food (pos 3) (pos 2) (pos 2) (pos 8) (pos 3) (pos 6)

abbrev pub feed_table6 : List ℤ
feed_table6 =
    food (negsuc 0) (pos 1) (negsuc 2) (pos 9) (negsuc 2) (negsuc 3)
    ++ food (pos 2) (pos 0) (pos 0) (pos 11) (pos 0) (negsuc 9)
    ++ food (pos 2) (pos 0) (pos 2) (pos 15) (pos 0) (negsuc 15)
    ++ food (negsuc 0) (pos 1) (negsuc 2) (negsuc 3) (negsuc 2) (pos 9)
    ++ food (pos 2) (pos 0) (pos 0) (negsuc 9) (pos 0) (pos 11)
    ++ food (pos 2) (pos 0) (negsuc 1) (negsuc 14) (pos 0) (pos 19)
    ++ food (pos 2) (negsuc 0) (pos 0) (pos 6) (pos 9) (negsuc 14)
    ++ food (negsuc 1) (pos 3) (pos 0) (negsuc 14) (pos 9) (pos 6)
    ++ food (pos 3) (negsuc 0) (pos 9) (negsuc 19) (negsuc 4) (pos 17)
    ++ food (pos 0) (pos 2) (negsuc 4) (pos 20) (pos 5) (negsuc 19)
    ++ food (pos 3) (pos 2) (pos 0) (pos 11) (pos 0) (pos 11)

abbrev pub feed_table7 : List ℤ
feed_table7 =
    food (negsuc 0) (pos 0) (negsuc 3) (pos 21) (negsuc 14) (negsuc 4)
    ++ food (pos 0) (pos 1) (negsuc 0) (pos 27) (negsuc 9) (negsuc 15)
    ++ food (pos 2) (pos 0) (pos 5) (pos 29) (negsuc 6) (negsuc 24)
    ++ food (negsuc 0) (pos 0) (negsuc 9) (negsuc 4) (negsuc 9) (pos 21)
    ++ food (pos 0) (pos 1) (negsuc 4) (negsuc 15) (negsuc 4) (pos 25)
    ++ food (pos 2) (pos 0) (negsuc 6) (negsuc 24) (pos 6) (pos 29)
    ++ food (negsuc 0) (pos 1) (negsuc 9) (negsuc 9) (pos 28) (negsuc 9)
    ++ food (pos 2) (negsuc 0) (pos 9) (negsuc 17) (pos 24) (negsuc 14)
    ++ food (pos 2) (pos 1) (pos 19) (pos 18) (negsuc 14) (negsuc 19)
    ++ food (pos 2) (pos 1) (negsuc 14) (negsuc 19) (pos 19) (pos 18)
    ++ food (pos 4) (pos 2) (pos 3) (pos 7) (pos 3) (pos 3)
