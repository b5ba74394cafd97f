-- ===== src/Paste.antt =====
-- keyboard_handler.py: typing the clipboard into the peer.
pub mod Chars
pub mod Typing
pub mod Clipboard
mod Tests
