-- ===== src/Tests/Network.antt =====
-- A host of which only the names of the held resources are kept.
use linux_tcp_cc.Base.{
  ◌≡◌, refl, ap, ok-injective, Bool, true, false, none, List, [], ◌∷◌, Text, lit, ⊤, ok, raised,
  Action, os_error,
}
use linux_tcp_cc.Host.Address.{v4}
use linux_tcp_cc.Host.Journal.{
  OwnershipJournal, new, shut, report, note_failure, run_entries, defer, close,
}
use linux_tcp_cc.Host.Journal.Laws.{close-defer}
use linux_tcp_cc.Host.Config.{NftOwnership, HostNetworkConfig, nft_lib}
use linux_tcp_cc.Host.Reports.{is_ok, is_blocking}
use linux_tcp_cc.Host.Network.{
  TunHandle, FirewallDnatLease, Collaborators, HostNetworkLease, acquire_host_network, close_lease,
  tun_label, dnat_label,
}
use linux_tcp_cc.Host.Network.Contract.{Contract}
use linux_tcp_cc.Host.Network.Transaction.{
  acquire_host_network_releases, acquire_host_network_holds, close_lease-acquire_host_network,
}
use mathlib.Core.List.{reverse}

abbrev Held : Type 0
Held = List Text

abbrev drop_newest : Held → Held
drop_newest [] = []
drop_newest (_ ∷ rest) = rest

abbrev release : Action Held ⊤
release held = (ok tt, drop_newest held)

abbrev tun_handle : TunHandle Held
tun_handle = record { name = lit "tcpcc0"; fd = 3; close = release }

abbrev dnat_lease : FirewallDnatLease Held
dnat_lease = record {
  backend_id = lit "nft-lib";
  resource_name = lit "tcpcc_tcpcc0";
  close = release;
}

abbrev owner : NftOwnership
owner = record { pid = 42; start_time = 1000; tun_name = lit "tcpcc0" }

-- The firewall accepts the batch or refuses it.
abbrev install : Bool → Action Held (FirewallDnatLease Held)
install true held = (ok dnat_lease, dnat_label (lit "nft-lib") (lit "tcpcc_tcpcc0") ∷ held)
install false held = (raised (os_error 16), held)

abbrev host : Bool → Collaborators Held
host accepts = record {
  preflight_collector = λ cc held. (ok (record { requested_cc = cc; checks = [] }), held);
  ownership_collector = λ held. (ok (record { observations = [] }), held);
  compatibility_checker = λ _ held. (ok tt, held);
  tun_acquirer = λ _ held. (ok tun_handle, tun_label (lit "tcpcc0") ∷ held);
  identity_factory = λ name held. (ok owner, held);
  dnat_acquirer = λ _ _ held. install accepts held;
}

abbrev live : Held → Held
live held = held

install-refused :
    (accepts : Bool) (s : Held) {e : _}
    → (install accepts s).0 ≡ raised e
    → (install accepts s).1 ≡ s
install-refused true s h = cc
install-refused false s h = refl

install-lease :
    (accepts : Bool) (s : Held) (lease : FirewallDnatLease Held)
    → (install accepts s).0 ≡ ok lease
    → (dnat_lease ≡ lease)
      × ((install accepts s).1 ≡ dnat_label (lit "nft-lib") (lit "tcpcc_tcpcc0") ∷ s)
install-lease true s lease h = (ok-injective h, refl)
install-lease false s lease h = cc

abbrev tun_of : TunHandle Held → Text
tun_of tun = tun_label tun.name

abbrev dnat_of : FirewallDnatLease Held → Text
dnat_of dnat = dnat_label dnat.backend_id dnat.resource_name

host-Contract : (accepts : Bool) → Contract tun_of dnat_of live (host accepts)
unfolding lit
host-Contract accepts = record {
  preflight_keeps = λ _ _. refl;
  ownership_keeps = λ _. refl;
  compatibility_keeps = λ _ _. refl;
  identity_keeps = λ _ _. refl;
  tun_refused = λ _ _ _ h _. cc;
  tun_acquired = λ _ s tun h. ap (λ (t : TunHandle Held). tun_label t.name ∷ s) (ok-injective h);
  tun_closed = λ _ _ tun u rest h held _.
      let same : tun_handle ≡ tun = ok-injective h in rw (← same) (ap drop_newest held);
  dnat_refused = λ _ _ s e h _. install-refused accepts s h;
  dnat_acquired =
      λ _ _ s dnat h. let (same, grown) = install-lease accepts s dnat h in rw (← same) grown;
  dnat_closed = λ _ _ s dnat u rest h held _.
      let (same, _) = install-lease accepts s dnat h in rw (← same) (ap drop_newest held);
  dnat_named = λ _ _ s dnat h. let (same, _) = install-lease accepts s dnat h in rw (← same) refl;
}

abbrev config : HostNetworkConfig
config = record {
  requested_cc = lit "bbr";
  tun = record {
    host_address = lit "10.200.0.1";
    guest_address = lit "10.200.0.2";
    family = v4;
    mtu = 1500;
    name = none;
  };
  dnat = record {
    listen_address = lit "192.0.2.1";
    listen_port = 443;
    target_address = lit "10.200.0.2";
    target_port = 443;
    table_name = none;
    family = v4;
  };
  firewall_backend = nft_lib;
}

abbrev lease : HostNetworkLease Held
lease = record {
  preflight = record { requested_cc = lit "bbr"; checks = [] };
  ownership = record { observations = [] };
  tun = tun_handle;
  dnat = dnat_lease;
}

abbrev other : Held
other = lit "other" ∷ []

-- The firewall refuses, and the TUN is given back.
refused : (acquire_host_network (host false) config (new, other)).0 ≡ raised (os_error 16)
unfolding acquire_host_network is_ok is_blocking lit run_entries
refused = refl

acquired : (acquire_host_network (host true) config (new, other)).0 ≡ ok lease
unfolding acquire_host_network is_ok is_blocking lit
acquired = refl

acquire_host_network_releases_example :
    live (acquire_host_network (host false) config (new, other)).1.1 ≡ live other
acquire_host_network_releases_example =
    acquire_host_network_releases (host false) config tun_of dnat_of live (host-Contract false)
      other (os_error 16) refused refl

acquire_host_network_holds_example :
    (is_ok lease.preflight ≡ true)
    × (is_blocking lease.ownership ≡ false)
    × (live (acquire_host_network (host true) config (new, other)).1.1
        ≡ dnat_of lease.dnat ∷ tun_of lease.tun ∷ live other)
acquire_host_network_holds_example =
    acquire_host_network_holds (host true) config tun_of dnat_of live (host-Contract true) other
      lease acquired

closes : (close_lease (acquire_host_network (host true) config (new, other)).1).0 ≡ ok tt
unfolding acquire_host_network close_lease is_ok is_blocking lit run_entries
closes = refl

close_lease-acquire_host_network_example :
    live (close_lease (acquire_host_network (host true) config (new, other)).1).1.1 ≡ live other
close_lease-acquire_host_network_example =
    close_lease-acquire_host_network (host true) config tun_of dnat_of live (host-Contract true)
      other lease acquired closes

-- A callback that fails after it released its resource.
abbrev failing : Action Held ⊤
failing held = (raised (os_error 5), drop_newest held)

abbrev entries : List (Text × Action Held ⊤)
entries = (lit "tun:tcpcc0", release) ∷ []

abbrev two_held : Held
two_held = lit "nft" ∷ lit "tun" ∷ []

close-defer_example :
    let (r, t) = failing two_held in
    let (failures, u) = run_entries (reverse entries) t in
    let j : OwnershipJournal Held = record { entries = entries; closed = false } in
    close (defer (lit "nft-lib:t") failing (j, two_held)).1
    ≡ (report (note_failure (lit "nft-lib:t") r failures), (shut, u))
unfolding lit
close-defer_example = close-defer (lit "nft-lib:t") failing entries two_held refl
