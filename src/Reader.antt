-- ===== src/Reader.antt =====
-- The buffered reader of the pinned connection: ln_church_agent/network_fetch.py, `_BufferedSocket`.
pub mod Socket
pub mod Stream
pub mod Exact
mod Tests
pub mod Line
pub mod LineEnd
pub mod LineRead
