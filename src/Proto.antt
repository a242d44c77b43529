-- ===== src/Proto.antt =====
-- bpf_broker/bpf_broker_proto.c, the user-space half of the broker: it registers topics, adds
-- subscribers and flushes topics in the maps that the kernel programs read.
pub mod Text
pub mod Store
pub mod Service
pub mod Handler
pub mod View
pub mod Polling
pub mod Startup
