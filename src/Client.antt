-- ===== src/Client.antt =====
-- src/xrd/client/file.py and src/xrd/io/raw.py: an open file, over whatever the router under it does.
pub mod Io
pub mod Link
pub mod File
pub mod Ranges
pub mod Read
pub mod Write
pub mod Server
pub mod Raw
