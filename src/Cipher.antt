-- ===== src/Cipher.antt =====
-- The packet cipher of ship_server.c between the ship and its clients: `pso_crypt_encrypt_bb`,
-- `pso_crypt_decrypt_bb`, `encryptcopy` and `decryptcopy`. An `unsigned long` is a word of 32 bits,
-- as the casts of the code to `unsigned` have it. The login server has copies of these functions.
pub mod Words
pub mod Blocks
pub mod Schedule
pub mod Textbook
pub mod Outbox
mod Tests
