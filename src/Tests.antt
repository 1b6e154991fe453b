-- ===== src/Tests.antt =====
-- Runs of the definitions on concrete inputs, and an instance of each theorem.
mod Network
mod Firewall
mod Defaults
mod Queues
mod Scan
mod Wire
mod Serving
mod Closing
mod Prerequisites
mod Pipes
mod Handlers
mod Starting
mod Endpoints
mod Kernels
mod Configs
