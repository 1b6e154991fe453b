-- ===== src/Host/Defaults.antt =====
-- The collaborators that `acquire_host_network` puts in where the caller gives none: the preflight
-- of the host, the TUN of this system, and one firewall backend for the scan, the dry run and the
-- installation.
pub mod Laws
pub mod Session
use linux_tcp_cc.Base.{
  none, some, Text, lit, value_error, text_eq, Outcome, ok, raised, Action, lift, ◌>>=◌, ⊤,
  if◌then◌else◌,
}
use linux_tcp_cc.Host.Config.{BackendId, nft_lib, nft_exec, iptables, TunConfig, HostNetworkConfig}
use linux_tcp_cc.Host.Inspector.{HostInspector}
use linux_tcp_cc.Host.Preflight.{collect_preflight}
use linux_tcp_cc.Host.Tun.{TunSystem, TunQueue, create_tun_queue, default_name_attempts, close}
use linux_tcp_cc.Host.Network.{
  TunHandle, Collaborators, HostNetworkLease, acquire_host_network, close_lease,
}
use linux_tcp_cc.Host.Journal.{Journaled}
use linux_tcp_cc.Host.Firewall.{FirewallBackend, Platform, ToolPaths, once, current_nft_ownership}

-- The member of `FIREWALL_BACKENDS`.
unfoldable pub backend_name : BackendId → Text
backend_name nft_lib = lit "nft-lib"
backend_name nft_exec = lit "nft-exec"
backend_name iptables = lit "iptables"

module _ {S : Type 0} (paths : ToolPaths) (inspector : S → HostInspector) (sys : TunSystem S)
    (platform : Platform S) where
  -- A queue as its owner sees it. `fileno` is read while the queue is open.
  abbrev pub handle_of : TunQueue → TunHandle S
  handle_of queue = record {
    name = queue.name;
    fd = elim queue.fd [ none ↦ 0 | some fd ↦ fd ];
    close = once (close sys) queue;
  }

  abbrev as_handle : Outcome TunQueue → Outcome (TunHandle S)
  as_handle (ok queue) = ok (handle_of queue)
  as_handle (raised e) = raised e

  unfoldable pub acquire_tun : TunConfig → Action S (TunHandle S)
  unfolding create_tun_queue
  acquire_tun config s =
      let (r, t) = create_tun_queue sys (lit "ip") config default_name_attempts s in
      (as_handle r, t)

  -- The defaults of the arguments, and the test of the injected backend.
  unfoldable pub default_collaborators :
      HostNetworkConfig → FirewallBackend S → Outcome (Collaborators S)
  unfolding backend_name acquire_tun collect_preflight current_nft_ownership
  default_collaborators config firewall =
      if text_eq firewall.backend_id (backend_name config.firewall_backend)
      then ok (record {
        preflight_collector = λ cc s. (
          collect_preflight (inspector s) paths.nft_path paths.iptables_path
              paths.iptables_restore_path paths.iptables_save_path cc config.dnat.family
              config.firewall_backend,
          s,
        );
        ownership_collector = firewall.inspect_ownership;
        compatibility_checker = firewall.check_compatibility;
        tun_acquirer = acquire_tun;
        identity_factory = current_nft_ownership platform;
        dnat_acquirer = firewall.install;
      })
      else raised (value_error "configured firewall backend does not match injected backend")

  -- `acquire_host_network` with a backend and no other argument, then `HostNetworkLease.close`.
  unfoldable pub acquire_default_network :
      HostNetworkConfig → FirewallBackend S → Action (Journaled S) (HostNetworkLease S)
  unfolding default_collaborators acquire_host_network
  acquire_default_network config firewall =
      lift (default_collaborators config firewall) >>= λ c. acquire_host_network c config

  unfoldable pub acquire_and_close : HostNetworkConfig → FirewallBackend S → Action (Journaled S) ⊤
  unfolding acquire_default_network close_lease
  acquire_and_close config firewall = acquire_default_network config firewall >>= λ _. close_lease
