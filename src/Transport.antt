-- ===== src/Transport.antt =====
-- kvserve_v1/transport/nccl_transport.py: the sizes of what is sent, the producer's queue, the
-- consumer's byte credits and its handling of the producer's messages.
pub mod Payload
pub mod Sender
pub mod Credits
pub mod Receiver
