-- ===== src/Host/Firewall/Choice.antt =====
-- The constructors of the transports and backends, which check their arguments.
use linux_tcp_cc.Base.{
  ◌||◌, Option, none, List, Text, lit, ⊤, value_error, Outcome, ok, raised, Action, text_eq,
  if◌then◌else◌,
}
use linux_tcp_cc.Base.Checks.{◌>>=◌, ◌>>◌, require}
use linux_tcp_cc.Host.Tun.{is_path}
use linux_tcp_cc.Host.Firewall.{FirewallBackend, Platform, Runner, ToolPaths}
use linux_tcp_cc.Host.Firewall.Iptables
use linux_tcp_cc.Host.Firewall.Iptables.Scan.{inspect_ownership}
use linux_tcp_cc.Host.Firewall.Nft.{
  NftTransport, is_table_family, inspect_ruleset, check_compatibility, install,
}

module _ {S : Type 0} where
  -- What `NftExecTransport.run` does: the output is dropped.
  abbrev silent : Runner S → List Text → Option Text → Action S ⊤
  silent runner argv input_text s =
      let (r, t) = runner argv input_text s in (elim r [ ok _ ↦ ok tt | raised e ↦ raised e ], t)

  -- `NftExecTransport`
  unfoldable pub nft_exec_transport : Text → Runner S → Outcome (NftTransport S)
  unfolding is_path
  nft_exec_transport nft_path runner = do
    require (is_path nft_path) (value_error "nft_path")
    ok (record {
      backend_id = lit "nft-exec";
      command_name = nft_path;
      run = silent runner;
      read = λ argv. runner argv none;
    })

  -- `NftFirewallBackend.__init__`
  unfoldable pub nft_firewall_backend :
      Platform S → NftTransport S → Text → Outcome (FirewallBackend S)
  unfolding is_table_family inspect_ruleset check_compatibility install
  nft_firewall_backend platform transport family = do
    require
        (text_eq transport.backend_id (lit "nft-lib")
          || text_eq transport.backend_id (lit "nft-exec"))
        (value_error "nft transport backend identifier")
    require (is_table_family family) (value_error "table_family")
    ok (record {
      backend_id = transport.backend_id;
      inspect_ownership = inspect_ruleset platform transport family;
      check_compatibility = check_compatibility platform transport family;
      install = install platform transport family;
    })

  -- `IptablesFirewallBackend`: its `__init__` checks the three paths.
  unfoldable pub iptables_firewall_backend :
      Platform S → Runner S → Text → Text → Text → Outcome (FirewallBackend S)
  unfolding is_path inspect_ownership Iptables.check_compatibility Iptables.install
  iptables_firewall_backend platform runner iptables_path restore_path save_path = do
    require (is_path iptables_path) (value_error "iptables_path")
    require (is_path restore_path) (value_error "restore_path")
    require (is_path save_path) (value_error "save_path")
    ok (record {
      backend_id = lit "iptables";
      inspect_ownership = inspect_ownership platform runner iptables_path save_path;
      check_compatibility = Iptables.check_compatibility runner platform iptables_path restore_path;
      install = Iptables.install runner platform iptables_path restore_path;
    })

  -- `create_firewall_backend`, where `library` is the transport over libnftables.
  unfoldable pub create_firewall_backend :
      Platform S → Runner S → NftTransport S → Text → Text → ToolPaths → Outcome (FirewallBackend S)
  unfolding nft_exec_transport nft_firewall_backend iptables_firewall_backend
  create_firewall_backend platform runner library backend_id family paths =
      if text_eq backend_id (lit "nft-lib")
      then nft_firewall_backend platform library family
      else if text_eq backend_id (lit "nft-exec")
      then (do
        transport ← nft_exec_transport paths.nft_path runner
        nft_firewall_backend platform transport family)
      else if text_eq backend_id (lit "iptables")
      then iptables_firewall_backend platform runner paths.iptables_path paths.iptables_restore_path
          paths.iptables_save_path
      else raised (value_error "firewall backend must be one of")
