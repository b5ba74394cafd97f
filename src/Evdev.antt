-- ===== src/Evdev.antt =====
-- keyboard_evdev.py: capture of the keyboards and the reports that it sends.
pub mod Keys
pub mod Report
pub mod Events
pub mod Devices
pub mod Grabber
mod Tests
