-- ===== src/Lib.antt =====
-- tcpcc: models and proofs for the Python host tools under tools/.
--
-- The tools run a Linux kernel as a user process (the hosted side) and let it terminate TCP
-- connections with a congestion control of its own. tools/tcpcc_host.py prepares the host: it
-- checks prerequisites, creates a TUN queue and installs one DNAT rule, each of which it owns and
-- gives back. tools/tcpcc_control.py is the binary protocol of the control channel to the hosted
-- side. tools/tcpcc_cli.py starts the hosted side and serves connections over that channel.
--
-- Base holds what the parts share: comparisons and texts (a text is the list of its character
-- codes), lists over the native numbers, integers, decimal numerals, exceptions (`Error`), results
-- (`Outcome`) and `Action S A`, Python code that acts on a state `S` and returns or raises.
-- Whatever a function is handed or looks up (the firewall, the operating system, the control
-- channel, the process) is a record of such actions on a state that stays a parameter; what the
-- proofs rely on is the record `Contract` next to them.
--
--   Host.Journal     OwnershipJournal
--   Host.Names       the patterns of names at the head of the file, _validate_tun_name
--   Host.Address     the ipaddress module: addresses are modelled, their texts are a parameter
--   Host.Config      TunConfig, NftDnatConfig, NftOwnership, HostNetworkConfig with __post_init__
--   Host.Reports     CheckResult, PreflightReport, the ownership observations and report
--   Host.Tun         TunQueue, _ifreq, _attached_name, create_tun_queue
--   Host.Marker      NftOwnership.marker and the pattern that reads it back
--   Host.Process     _process_start_time
--   Host.Ownership   inspect_nft_ownership; json.loads is a parameter
--   Host.Inspector   HostInspector.read_proc, and the mask in /proc/self/status
--   Host.Preflight   the checks, and collect_preflight
--   Host.Network     acquire_host_network, _register_resource, HostNetworkLease.close
--   Host.Shlex       str.splitlines and shlex.split
--   Host.Firewall    FirewallBackend, current_nft_ownership; its children Nft (_dnat_batch,
--                    install_nft_dnat, NftDnatLease, NftFirewallBackend), Iptables (rules, lease,
--                    installation, ownership scan) and Choice (create_firewall_backend)
--   Host.Defaults    the default collaborators of acquire_host_network, and a whole session
--   Host.Signals     ShutdownSignals
--   Control.Wire     struct packing with little-endian fields
--   Control.Request  encode_request, decode_response
--   Control.Snapshots  decode_bridge_result, decode_service_stats
--   Control.Payloads   decode_reclaim_stats and the encoders of configurations and endpoints
--   Control.Client   read_exact_fd, ControlClient.transact
--   Service.Endpoint Endpoint.parse and its str
--   Service.Config   ServiceConfig with __post_init__
--   Service.Kernel   validate_kernel_image
--   Service.Runtime  the attributes of HostedKernelRuntime, _verify_cc, _ensure_running
--   Service.Bridges  _join_bridge_result, _validate_bridge_contract, _reap_bridges
--   Service.Accept   _accept_available, poll_once
--   Service.Drain    _drain_bridges
--   Service.Start    start, serve
--   Service.Shutdown _force_stop, shutdown
--   Service.Run      run_service, from its with statement on
--   Tests            runs on concrete inputs, and instances of the contracts
--
-- Choices. A test of a type (`isinstance`) is the type of an argument. A number that has passed its
-- range test is a natural number; before, it is an integer. The text of a message is a tag. A
-- time is a number of ticks. A Python set of bridge handles is a list without repetition. The
-- accept loop runs on fuel, and its result is false if the fuel runs out: that does not happen if
-- the fuel exceeds the number of sockets that the hosted side hands out during the call.
-- read_exact_fd takes the length that it is asked for as its fuel, which is enough, since a chunk
-- without bytes ends it. The fuel of a numeral's digits is above the number. The drain of a shutdown
-- runs on fuel as the accept loop does: the number of bridges and the microseconds of the grace
-- period are enough, for a clock that goes on while a join waits. The periods of a ServiceConfig
-- are whole numbers of microseconds. serve runs for a number of rounds, and its result is false if
-- they run out before a stop is requested.
--
-- Not modelled: the arguments of the command line in tools/tcpcc_cli.py, host_network_config and
-- iptables_paths there, the JSON that reports are printed as, the ctypes calls of libnftables
-- (its transport is a parameter), and the hosted kernel itself.
pub mod Base
pub mod Host
pub mod Control
pub mod Service
pub mod Tests
