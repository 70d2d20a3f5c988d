-- ===== src/Proto/Responses.antt =====
-- src/xrd/proto/responses.py: the decoders of response bodies, one child for each group. A text is
-- kept as the bytes that it is decoded from.
pub mod Control
pub mod Bringup
pub mod Vector
pub mod Attributes
pub mod Listing
pub mod Opened
