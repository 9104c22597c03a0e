-- ===== src/Consumer.antt =====
-- kvsfuse-vllm0.30.0/mooncake/session_process.py: the consumer's half of the session helper,
-- `_run_consumer_session`, `_decode_and_release` and `_recv_request`.
pub mod State
pub mod Actions
pub mod Fine
pub mod Slots
pub mod Runs
pub mod Back
pub mod Failures
pub mod Tests
