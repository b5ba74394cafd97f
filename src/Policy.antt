-- ===== src/Policy.antt =====
-- keyboard_handler.py, ToothkeyKeyboardHandler: when a grab is held.
pub mod Capture
pub mod Handler
pub mod Grabbers
mod Tests
