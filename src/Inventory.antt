-- ===== src/Inventory.antt =====
-- The inventory functions of ship_server.c.
pub mod CleanUp
pub mod Units
pub mod Delete
pub mod Add
pub mod Meseta
pub mod Removal
pub mod Order
pub mod Sample
mod Tests
