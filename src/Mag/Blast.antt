-- ===== src/Mag/Blast.antt =====
-- `enum PBTypes` of ship_server/def_tables.h: the photon blasts.
use tethealla.Base.{ℕ}

abbrev pub farlla : ℕ
farlla = 0

abbrev pub estlla : ℕ
estlla = 1

abbrev pub golla : ℕ
golla = 2

abbrev pub pilla : ℕ
pilla = 3

abbrev pub leilla : ℕ
leilla = 4

abbrev pub mylla_youlla : ℕ
mylla_youlla = 5
