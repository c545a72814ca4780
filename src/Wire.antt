-- ===== src/Wire.antt =====
-- Both ends together: what rdpapplist/server/rdpapplist_main.c puts on the channel is what
-- WSLDVCPlugin/WSLDVCCallback.cpp reads off it.
pub mod Reads
pub mod Strings
pub mod RoundTrip
pub mod Icon
pub mod Mismatch
pub mod Delivery
pub mod Deletion
pub mod Launch
pub mod Window
pub mod HandShake
