-- ===== src/Stream.antt =====
-- The streams of src/stream.cpp: the control, video and audio threads and the state of a session.
pub mod Samples
pub mod Fec
pub mod Frame
pub mod Video
pub mod Audio
pub mod Session
pub mod Control
pub mod Peers
pub mod Ping
