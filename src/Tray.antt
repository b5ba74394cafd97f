-- ===== src/Tray.antt =====
-- tray.py: what the tray shows, what its handlers do, and its link to the worker. The Qt widgets
-- are the record of what they show.
pub mod Restart
pub mod Startup
pub mod Link
pub mod View
pub mod Handlers
pub mod Shows
pub mod Reachable
pub mod Truthful
pub mod Closing
pub mod Relink
pub mod Told
pub mod Polled
mod Tests
