-- ===== src/Spoof.antt =====
-- The pool of source addresses of the spoofed transport, and the receipts that tell which of them
-- get through: src/spoof_pool.cpp and src/spoof_feedback.cpp.
pub mod Pool
pub mod Choice
pub mod Cooldown
pub mod Receipts
pub mod Bitmap
pub mod Wire
pub mod Feedback
pub mod Verdict
pub mod Tests
