-- ===== src/Codec.antt =====
-- The link between the ship server and the login server: what `compressShipPacket` and
-- `decompressShipPacket` of ship_server.c do to a packet.
pub mod Rle
pub mod Rc4
pub mod ShipPacket
mod Tests
