-- ===== src/Rtsp.antt =====
-- src/rtsp.cpp: the connections of the RTSP server and the launch sessions they serve.
pub mod Socket
pub mod Envelope
pub mod Server
pub mod Commands
pub mod Surround
