-- ===== src/Control.antt =====
-- tools/tcpcc_control.py: the client of the hosted control ABI.
pub mod Wire
pub mod Request
pub mod Snapshots
pub mod Payloads
pub mod Client
