-- ===== src/Mag/Kind.antt =====
-- `enum MagTypes` of ship_server/def_tables.h: the types of mag that the code names.
use tethealla.Base.{ℕ}

abbrev pub mag : ℕ
mag = 0

abbrev pub varuna : ℕ
varuna = 1

abbrev pub mitra : ℕ
mitra = 2

abbrev pub surya : ℕ
surya = 3

abbrev pub vayu : ℕ
vayu = 4

abbrev pub varaha : ℕ
varaha = 5

abbrev pub kama : ℕ
kama = 6

abbrev pub ushasu : ℕ
ushasu = 7

abbrev pub apsaras : ℕ
apsaras = 8

abbrev pub kumara : ℕ
kumara = 9

abbrev pub kaitabha : ℕ
kaitabha = 10

abbrev pub tapas : ℕ
tapas = 11

abbrev pub bhirava : ℕ
bhirava = 12

abbrev pub kalki : ℕ
kalki = 13

abbrev pub rudra : ℕ
rudra = 14

abbrev pub marutah : ℕ
marutah = 15

abbrev pub yaksa : ℕ
yaksa = 16

abbrev pub sita : ℕ
sita = 17

abbrev pub garuda : ℕ
garuda = 18

abbrev pub nandin : ℕ
nandin = 19

abbrev pub ashvinau : ℕ
ashvinau = 20

abbrev pub ribhava : ℕ
ribhava = 21

abbrev pub soma : ℕ
soma = 22

abbrev pub ila : ℕ
ila = 23

abbrev pub durga : ℕ
durga = 24

abbrev pub vritra : ℕ
vritra = 25

abbrev pub namuci : ℕ
namuci = 26

abbrev pub sumba : ℕ
sumba = 27

abbrev pub naga : ℕ
naga = 28

abbrev pub kabanda : ℕ
kabanda = 30

abbrev pub ravana : ℕ
ravana = 31

abbrev pub marica : ℕ
marica = 32

abbrev pub andhaka : ℕ
andhaka = 35

abbrev pub bana : ℕ
bana = 36

abbrev pub naraka : ℕ
naraka = 37

abbrev pub madhu : ℕ
madhu = 38

abbrev pub deva : ℕ
deva = 57

abbrev pub rati : ℕ
rati = 58

abbrev pub savitri : ℕ
savitri = 59

abbrev pub rukmin : ℕ
rukmin = 60

abbrev pub pushan : ℕ
pushan = 61

abbrev pub dewari : ℕ
dewari = 62

abbrev pub sato : ℕ
sato = 63

abbrev pub bhima : ℕ
bhima = 64

abbrev pub nidra : ℕ
nidra = 65

abbrev pub agastya : ℕ
agastya = 76
