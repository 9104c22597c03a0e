-- ===== src/Lib.antt =====
-- A model of KVServe, compressed transfer of KV caches between prefill and decode workers.
--
-- Parts, with the files that model them:
--   Workspace             kvserve_v1/compression/runtime/memory.py: FixedWorkspaceAllocator (the best-fit
--                         allocator of codec scratch memory) and _PoolAllocation. A free block is the
--                         source's pair; alloc is __call__, release is release; Workspace/History has the
--                         allocations that are alive. spec.py's round_up stands here too.
--   Transport/Payload     kvserve_v1/transport/nccl_transport.py: the sizes of tensors and bundles
--   Transport/Sender      the producer: send, send_bundle, _send_loop, _send_completion_loop, waiting
--   Transport/Credits     the consumer's byte credits: _reserve_received, release_received
--   Transport/Receiver    the consumer: _listen_loop, _recv_completion_loop, drain_received, and how
--                         kvserve_v1/connector/compressed_kv_connector.py takes payloads and gives
--                         their credits back
--   Layout                kvserve_v1/compression/runtime/layout.py: the records of a layout (Data), one KV
--                         part of a layer (Section), build_compression_layout (Build), and what is
--                         asked of a layout (Tail); integers that may be negative (Integers)
--   Lookup                kvsfuse-vllm0.30.0/mooncake/store/protocol.py: the bytes of a lookup response
--   Wire                  kvserve_v1/compression/wire.py: metadata with placeholders for tensors (Obj), the
--                         coalesced parameters (Coalesce), the body (Body), build_wire (Build) and
--                         restore_from_wire (Restore); what they use of torch (Torch)
--   Session               kvsfuse-vllm0.30.0/mooncake/session_process.py, the producer's half of
--                         _SessionService: its dictionaries and objects (State), how a session ends
--                         (Sending), _apply_producer_metadata, _open_producer_session and
--                         _sweep_sends (Open), _serve_producer_chunk (Serve), _abort_producer (Abort),
--                         and the event loop (Run); handshake_target_ranks
--                         of session_ipc.py (Ranks)
--   Consumer              the consumer's half of it: the local variables of _run_consumer_session (State),
--                         what it does between two awaits (Actions), _recv_request (Failures)
--   Bitpack               kvserve_v1/compression/codec/bitpack_codec.py: BitPackCodec with the kernels _pack
--                         and _unpack, one function for what each lane stores
--   Tokens                kvsfuse-vllm0.30.0/mooncake/compression/tokens.py, with _compression_total_chunks
--                         and _compression_chunk_window of mooncake_connector.py
--   Scores                kvserve_v1/compression/runtime/scores.py: build_head_selection, whose low counts
--                         layout.py reads, and the steps of build_memory_plan (memory.py) that call
--                         both (Planning)
--   Common                Boolean tests, lists over the native numbers, texts
--
-- The producer sends a PUT for each payload; the consumer reserves credits and answers, or sends it back
-- to be retried; the connector gives the credits back when it has injected the payload. Threads that
-- share a lock or a condition variable are modelled by lists of their critical sections, so that every
-- theorem about a list of events speaks of every interleaving. The coroutines of the session helper are
-- modelled in the same way, by the sections between their awaits; a job that the engine still has when its
-- wait has timed out is kept in a list.
--
-- No loop needs fuel: each is a recursion on a list, or on the number of its steps. Numbers are
-- unbounded, as Python's, but the int32 indices of Bitpack's kernels; a subtraction that Python would
-- take below 0 stops at 0 here, but in Tokens and for the heads of Layout, which are integers. A
-- request identifier is a text.
--
-- Parameters: torch's tensors in Wire, with laws; elsewhere its element_size and itemsize of a dtype,
-- the layer count that layout.py rounds in floats, and for scores.py numpy's argsort and isfinite and the
-- file of scores. Not modelled: CUDA and NCCL (an event says how a call ended), statistics, logging,
-- sockets; the session helper's block tables, bootstrap query and shutdown; the rest of the store, the
-- controller, the other codecs' kernels and the offline search.
pub mod Common
pub mod Workspace
pub mod Transport
pub mod Layout
pub mod Lookup
pub mod Wire
pub mod Session
pub mod Bitpack
pub mod Consumer
pub mod Tokens
pub mod Scores
