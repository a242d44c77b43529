-- ===== src/Tests.antt =====
-- Concrete frames and states, and the theorems at them.
mod Samples
mod Checksum
mod Xdp
mod Service
mod Broker
mod Parse
mod Calls
mod CloneTx
mod Tc
mod Forwards
mod ArrayProto
mod Loader
mod Fanout
mod Startup
