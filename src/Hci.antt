-- ===== src/Hci.antt =====
-- hci_monitor.py: what it reads from each packet of the monitor socket.
pub mod Decode
mod Tests
