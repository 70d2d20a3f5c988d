-- ===== src/Tests.antt =====
-- Runs at concrete inputs of the code that the other modules model.
mod Wire
mod Session
mod Login
mod Pool
mod Router
mod Checksums
mod Der
mod Url
mod Listing
mod Builders
mod Files
mod Streams
mod Copies
mod Journal
