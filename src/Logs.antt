-- ===== src/Logs.antt =====
-- logging_setup.py: the rotation of the log files and the tee that stamps each line.
pub mod Rotate
pub mod Tee
pub mod Diag
pub mod Install
pub mod Open
mod Tests
