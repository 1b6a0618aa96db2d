-- ===== src/Safe.antt =====
-- src/thread_safe.h: what threads of the program hand to each other.
pub mod Event
pub mod Queue
pub mod Mail
