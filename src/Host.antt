-- ===== src/Host.antt =====
-- tools/tcpcc_host.py: host prerequisites, and the network resources that one instance owns.
pub mod Journal
pub mod Names
pub mod Address
pub mod Config
pub mod Reports
pub mod Tun
pub mod Marker
pub mod Process
pub mod Ownership
pub mod Inspector
pub mod Preflight
pub mod Shlex
pub mod Network
pub mod Firewall
pub mod Defaults
pub mod Signals
