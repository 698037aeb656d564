-- ===== src/Lib.antt =====
-- Verification of the Tethealla ship server's own game logic: the items that players carry and
-- that lie in a game, what they wear, the mags that they raise and the levels that they reach,
-- their seats in lobbies and games, the lists of players that a ship keeps and the addresses
-- that it bans, the cipher of the packets to the clients, and the codec of the packets between a
-- ship and the login server.
--
-- The program is ship_server.c, one file of global functions over the structures of
-- def_structs.h. A client (BANANA) has a character (CHARDATA) with an inventory of 30 slots and a
-- bank; a lobby (LOBBY) has the items that lie in a game. A command handler reads a packet and
-- calls the item functions, which change both and send packets; a function that meets a request
-- that cannot be right sets the client's `todc`, so that it is disconnected. A ship (ORANGE) sends
-- its packets to the login server compressed and encrypted.
--
-- Which file models what:
--   Base: shared names, tests, lists, bits and the signed numbers of C.
--   Item: ITEM, INVENTORY_ITEM, BANK_ITEM and the tests that the functions make on an item
--     (src/ship_server/def_structs.h, src/ship_server/ship_server.c).
--   Game: the fields of BANANA and LOBBY that the item functions use (Client, Lobby), with what is
--     sent (Room), and the test of `client->lobby` that comes first (World, in_lobby).
--   Floor: CleanUpGameInventory and free_game_item; Floor/Compact, Floor/Oldest and Floor/Free
--     have the proofs.
--   Inventory: CleanUp (CleanUpInventory), Delete (DeleteItemFromClient), Add (AddItemToClient
--     and AddToInventory), Meseta (DeleteMesetaFromClient), Removal (DeleteFromInventory), Order
--     (SendItemToEnd, SortClientItems, UpdateGameItem); Units counts the units of a kind of
--     item. Below them the proofs, by what they are about.
--   Bank: CleanUpBank, DepositIntoBank, WithdrawFromBank; Bank/Sort SortBankItems; Bank/Command the
--     bank command 0xBD of Send62; Bank/Units, Bank/Places, Bank/Deposit, Bank/Withdraw and
--     Bank/Sort/Sorted have the proofs.
--   Mag: AddPB and MagAlignment; Mag/Evolve and Mag/Level50 the evolutions (MagSpecialEvolution,
--     MagLV35Evolution, MagLV10Evolution, CheckMagEvolution; MagLV50Evolution); Mag/Feed FeedMag;
--     Mag/Layout the cast of an item's bytes to MAG; Mag/Kind, Mag/Blast and Mag/FeedTables the
--     tables of src/ship_server/def_tables.h. Mag/HeldBlasts, Mag/Classes, Mag/Steps, Mag/Growth
--     and Mag/Alignment have the proofs.
--   Repair: FixItem and CheckMaxGrind; Repair/Mags has the proofs on mags.
--   Equip: check_equip, EquipItem and DeequipItem; Equip/Dressed has the rule of the equipment and
--     the proofs, by what is taken off and what is put on.
--   Progress: AddExp and SkipToLevel, with the table tnlxp (Progress/Thresholds) of
--     src/ship_server/def_tables.h; Progress/Climb and Progress/Reached have the proofs.
--   Seats: removeClientFromLobby and free_game, and what initialize_game and Send64 do to the
--     seats of a game, where the request is refused too; Seats/Lobby the same of Send67 for the
--     lobbies of a block. Seats/Played has the course of a game as a relation; Seats/Counted,
--     Seats/Leader, Seats/Led, Seats/Joined, Seats/Sought and Seats/Entered have the proofs.
--   Addresses: convertIPString, convertMask and the comparison of an address with the masks;
--     Addresses/Scanned and Addresses/Read have the proofs.
--   Moderation: stfu, toggle_stfu, ban, PrepGuildCard and PreppedGuildCard; Moderation/Gaps is about
--     the loop that they share.
--   Cipher: Words (pso_crypt_encrypt_bb, pso_crypt_decrypt_bb), Schedule (pso_crypt_init_key_bb,
--     pso_crypt_table_init_bb), Outbox (encryptcopy, decryptcopy, SendToLobby). Cipher/Textbook has
--     the network that the cipher is compared with, Cipher/Schedule/Blowfish the key schedule.
--   Codec: Rle (RleEncode, RleDecode), Rc4 (prepare_key, rc4), ShipPacket (compressShipPacket,
--     decompressShipPacket), of src/ship_server/ship_server.c.
--
-- How the code is read: a structure is a record, an array a list, a loop that searches is
-- find_index. A function that changes the client or the lobby takes a Room and returns one; its
-- early returns and its `todc` are values. An `unsigned` keeps its wrap-around written out where
-- the code can reach it, and `short` and `char` keep theirs in Base/Int. The loops of the codec
-- run on fuel that is the length of their input, which is enough since each round takes a byte;
-- the loop of AddExp runs on 200 rounds, which is enough since a level is gained in each; all
-- other loops are structural. The counter of the joins of a game is a word; what is shown of a
-- game supposes that it has not come to its end. A seat of a lobby is one record of what the
-- code keeps in three arrays. `none` in the codec is an access past a buffer, and in feed_mag a
-- read outside the feeding table. A table that is read from files at start (of armors, barriers
-- and grinds) is a parameter of the functions that use it.
--
-- What is not modelled: sockets, files, the MySQL store, the user interface, the command
-- handlers beside the item functions, UseItem, quests, maps, drops and shops, the packets that
-- show a client the other players of its lobby, the login and the patch server (which have
-- copies of the ciphers and of FixItem). The libraries under src (mtwist, md5, prs, mysql) are
-- other projects' code.
pub mod Base
pub mod Item
pub mod Game
pub mod Floor
pub mod Inventory
pub mod Bank
pub mod Mag
pub mod Repair
pub mod Codec
pub mod Cipher
pub mod Equip
pub mod Progress
pub mod Moderation
pub mod Addresses
pub mod Seats
