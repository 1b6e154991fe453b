-- ===== src/Tests/Defaults.antt =====
-- A host with descriptors and user chains in one list, on which a whole session runs.
use linux_tcp_cc.Base.{
  ℕ, ◌≡◌, refl, ap, ok-injective, true, false, none, some, List, [], ◌∷◌, ◌++◌, Text, lit, text_eq,
  Outcome, ok, raised, os_error, if◌then◌else◌,
}
use linux_tcp_cc.Host.Address.{v4}
use linux_tcp_cc.Host.Config.{HostNetworkConfig, iptables}
use linux_tcp_cc.Host.Inspector.{HostInspector}
use linux_tcp_cc.Host.Journal.{new}
use linux_tcp_cc.Host.Process.{Reader}
use linux_tcp_cc.Host.Tun.{TunSystem}
use linux_tcp_cc.Host.Tun.Laws
use linux_tcp_cc.Host.Network.{Collaborators}
use linux_tcp_cc.Host.Network.Contract
use linux_tcp_cc.Host.Firewall.{FirewallBackend, Platform, Runner, ToolPaths, current_nft_ownership}
use linux_tcp_cc.Host.Firewall.Contract as Firewall
use linux_tcp_cc.Host.Firewall.Iptables.{install, check_compatibility}
use linux_tcp_cc.Host.Firewall.Iptables.Laws as Tables
use linux_tcp_cc.Host.Firewall.Iptables.Laws.{iptables_firewall_backend-Contract}
use linux_tcp_cc.Host.Firewall.Iptables.Scan.{inspect_ownership}
use linux_tcp_cc.Host.Firewall.Choice.{iptables_firewall_backend}
use linux_tcp_cc.Host.Preflight.{collect_preflight}
use linux_tcp_cc.Host.Defaults.{acquire_tun, default_collaborators, acquire_and_close}
use linux_tcp_cc.Host.Defaults.Laws as Refined
use linux_tcp_cc.Host.Defaults.Laws.{default_collaborators-Contract}
use linux_tcp_cc.Host.Defaults.Session.{is_clean, acquire_and_close_balanced}

data Resource : Type 0 where
  descriptor : ℕ → Resource
  chain : Text → Resource

abbrev Held : Type 0
Held = List Resource

abbrev held_of : Held → List Resource
held_of held = held

abbrev drop_newest : Held → Held
drop_newest [] = []
drop_newest (_ ∷ rest) = rest

abbrev system : TunSystem Held
system = record {
  opener = λ held. (ok 3, descriptor 3 ∷ held);
  ioctl = λ _ request held. (ok request, held);
  runner = λ _ held. (ok tt, held);
  closer = λ _ held. (ok tt, drop_newest held);
  name_factory = λ held. (ok (lit "tcpcc7"), held);
}

system-Contract : Laws.Contract descriptor held_of system
system-Contract = record {
  opened = λ s fd h. ap (λ (n : ℕ). descriptor n ∷ s) (ok-injective h);
  open_refused = λ s e h. cc;
  ioctl_keeps = λ _ _ _. refl;
  runner_keeps = λ _ _. refl;
  name_keeps = λ _. refl;
  closed = λ _ s rest has _. ap drop_newest has;
}

abbrev after : List Text → Held → Held
after (_ ∷ _ ∷ _ ∷ _ ∷ action ∷ name ∷ []) held = elim (text_eq action (lit "-N")) [
  | true ↦ chain name ∷ held
  | false ↦ elim (text_eq action (lit "-X")) [ true ↦ drop_newest held | false ↦ held ]
]
after _ held = held

abbrev runner : Runner Held
runner argv _ held = (ok [], after argv held)

-- The process 42 started at 1000.
abbrev proc : Reader
proc pid = ok (lit "42 (tcpcc) S 1 1 1 0 -1 0 0 0 0 0 0 0 0 0 20 0 1 0 1000 0")

abbrev platform : Platform Held
platform = record {
  loads = λ _. none;
  proc = λ _. proc;
  getpid = 42;
  token_hex = λ held. (ok (lit "0a1b2c3d4e5f"), held);
}

abbrev paths : ToolPaths
paths = record {
  nft_path = lit "nft";
  iptables_path = lit "iptables";
  iptables_restore_path = lit "iptables-restore";
  iptables_save_path = lit "iptables-save";
}

jump_ignored :
    (arguments : List Text) (held : Held)
    → after
        (lit "iptables"
          ∷ lit "--wait"
          ∷ lit "-t"
          ∷ lit "nat"
          ∷ lit "-D"
          ∷ lit "PREROUTING"
          ∷ arguments)
        held
      ≡ held
unfolding lit text_eq
jump_ignored [] held = refl
jump_ignored (_ ∷ _) held = refl

runner-Applies :
    Tables.Applies chain held_of platform runner
      (lit "iptables")
      (lit "iptables-restore")
      (lit "iptables-save")
unfolding lit text_eq
runner-Applies = record {
  token_keeps = λ _. refl;
  save_keeps = λ _. refl;
  test_keeps = λ _ _. refl;
  restore_keeps = λ _ _. refl;
  jump_keeps = jump_ignored;
  flush_keeps = λ _ _. refl;
  created = λ _ _ _ _. refl;
  refused = λ _ _ e h. cc;
  deleted = λ _ _ _ _ has _. ap drop_newest has;
}

abbrev firewall : FirewallBackend Held
firewall = record {
  backend_id = lit "iptables";
  inspect_ownership = inspect_ownership platform runner (lit "iptables") (lit "iptables-save");
  check_compatibility =
      check_compatibility runner platform (lit "iptables") (lit "iptables-restore");
  install = install runner platform (lit "iptables") (lit "iptables-restore");
}

firewall-Contract : Firewall.Contract chain held_of firewall
unfolding iptables_firewall_backend lit
firewall-Contract =
    iptables_firewall_backend-Contract chain held_of platform runner (lit "iptables")
      (lit "iptables-restore") (lit "iptables-save") runner-Applies firewall refl

abbrev read_file : Text → Outcome Text
read_file path =
    if text_eq path (lit "self/status")
    then ok (lit "Name: x" ++ (10 ∷ lit "CapEff: 0000000000003000") ++ (10 ∷ []))
    else if text_eq path (lit "sys/net/ipv4/ip_forward")
    then ok (b'1' ∷ 10 ∷ [])
    else raised (os_error 2)

abbrev inspector : Held → HostInspector
inspector _ = record {
  reader = read_file;
  statter = ok 0x21B6;
  access = ok true;
  resolver = λ name. ok (some (lit "/sbin/" ++ name));
  library_resolver = λ _. ok none;
}

abbrev config : HostNetworkConfig
config = record {
  requested_cc = lit "bbr";
  tun = record {
    host_address = lit "10.200.0.1";
    guest_address = lit "10.200.0.2";
    family = v4;
    mtu = 1500;
    name = none;
  };
  dnat = record {
    listen_address = lit "192.0.2.1";
    listen_port = 443;
    target_address = lit "10.200.0.2";
    target_port = 443;
    table_name = none;
    family = v4;
  };
  firewall_backend = iptables;
}

abbrev resolved : Collaborators Held
resolved = record {
  preflight_collector = λ cc s. (
    collect_preflight (inspector s) (lit "nft") (lit "iptables") (lit "iptables-restore")
        (lit "iptables-save") cc v4 iptables,
    s,
  );
  ownership_collector = firewall.inspect_ownership;
  compatibility_checker = firewall.check_compatibility;
  tun_acquirer = acquire_tun paths inspector system platform;
  identity_factory = current_nft_ownership platform;
  dnat_acquirer = firewall.install;
}

accepted : default_collaborators paths inspector system platform config firewall ≡ ok resolved
unfolding default_collaborators lit text_eq
accepted = refl

default_collaborators-Contract_example :
    Contract.Contract
      (Refined.of_tun descriptor chain held_of paths inspector system platform config
        system-Contract)
      (Refined.of_lease descriptor chain held_of paths inspector system platform config
        system-Contract)
      held_of
      resolved
default_collaborators-Contract_example =
    default_collaborators-Contract descriptor chain held_of paths inspector system platform config
      system-Contract firewall resolved firewall-Contract accepted

session_ends :
    (acquire_and_close paths inspector system platform config firewall (new, descriptor 7 ∷ [])).0
    ≡ ok tt
unfolding acquire_and_close lit text_eq linux_tcp_cc.Host.Names.is_cc_name
    linux_tcp_cc.Host.Reports.is_ok inspect_ownership linux_tcp_cc.Host.Reports.is_blocking
    check_compatibility linux_tcp_cc.Host.Names.is_iptables_chain_name
    linux_tcp_cc.Host.Process.process_start_time linux_tcp_cc.Host.Names.is_tun_name
    linux_tcp_cc.Base.Decimal.decimal linux_tcp_cc.Host.Marker.marker
    linux_tcp_cc.Host.Tun.attached_name install linux_tcp_cc.Host.Journal.run_entries
    linux_tcp_cc.Host.Firewall.Iptables.close linux_tcp_cc.Host.Tun.close
session_ends = refl

acquire_and_close_balanced_example :
    held_of
      (acquire_and_close paths inspector system platform config firewall
        (new, descriptor 7 ∷ [])).1.1
    ≡ descriptor 7 ∷ []
acquire_and_close_balanced_example =
    acquire_and_close_balanced descriptor chain held_of paths inspector system platform config
      system-Contract firewall firewall-Contract (descriptor 7 ∷ []) (ap is_clean session_ends)
