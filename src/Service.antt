-- ===== src/Service.antt =====
-- tools/tcpcc_cli.py: the hosted-kernel runtime of the command.
pub mod Runtime
pub mod Bridges
pub mod Endpoint
pub mod Kernel
pub mod Config
pub mod Accept
pub mod Drain
pub mod Shutdown
pub mod Run
pub mod Start
