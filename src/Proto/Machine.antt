-- ===== src/Proto/Machine.antt =====
-- src/xrd/proto/machine.py: the sans-io session machine. The children define it bottom up; `Reach`
-- has the runs of a session.
pub mod State
pub mod Secure
pub mod Streams
pub mod Quiet
pub mod Exec
pub mod Outbound
pub mod Login
pub mod Answers
pub mod Framing
pub mod Reach
