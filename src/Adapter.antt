-- ===== src/Adapter.antt =====
-- bluetooth_handler.py: what the local adapter offers and how it is set up.
pub mod Uuids
pub mod Pollution
pub mod Hijack
pub mod Class
pub mod Bringup
pub mod Noplugin
pub mod Initialize
pub mod Obex
mod Tests
