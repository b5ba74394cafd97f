-- ===== src/Worker.antt =====
-- worker.py: the tray's commands, one tray's connection after the other, a session's grab, and the
-- poller of its state.
pub mod Commands
pub mod Poller
pub mod Startup
pub mod Send
pub mod Link
pub mod Tests
