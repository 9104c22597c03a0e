-- ===== src/Session.antt =====
-- kvsfuse-vllm0.30.0/mooncake/session_process.py: the producer's half of the session helper.
pub mod State
pub mod Sending
pub mod Open
pub mod Serve
pub mod Abort
pub mod Run
pub mod Tables
pub mod Frames
pub mod Totals
pub mod Slots
pub mod Rest
pub mod Interleaving
pub mod Giving
pub mod Conservation
pub mod Closing
pub mod Watching
pub mod Draining
pub mod Quiet
pub mod Safety
pub mod Ranks
pub mod Tests
