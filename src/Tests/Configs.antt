-- ===== src/Tests/Configs.antt =====
-- A configuration with the default TUN addresses.
use linux_tcp_cc.Base.{
  ◌≡◌, refl, sym, ap, ◌∙◌, ◌<◌, ◌^◌, ◌==◌, Bool, true, false, some, none, [], Text, lit, text_eq,
  if◌then◌else◌, ok, arith,
}
use linux_tcp_cc.Base.Int.{pos}
use mathlib.Core.Path.{subst}
use linux_tcp_cc.Host.Address.{v4, IpAddress, IpModule, IsLawful, ip_eq, max_prefixlen}
use linux_tcp_cc.Host.Names.{is_cc_name}
use linux_tcp_cc.Service.Config.{ServiceConfig, post_init, link_addresses, check_numbers}
use linux_tcp_cc.Service.Config.Laws as Config_laws

-- A module that knows the host and the guest of the default link.
abbrev address : Bool → IpAddress
address guest = record { family = v4; value = if guest then 2 else 1; scope = [] }

abbrev written : Bool → Text
written guest = if guest then lit "198.18.0.2" else lit "198.18.0.1"

abbrev link_ip : IpModule
link_ip = record {
  parse = λ t.
      if text_eq t (written false)
      then some (address false)
      else if text_eq t (written true)
      then some (address true)
      else none;
  print = λ a. written (a.value == 2);
  is_unspecified = λ _. false;
  is_multicast = λ _. false;
}

again : (guest : Bool) → link_ip.parse (written guest) ≡ some (address guest)
unfolding lit text_eq
again false = refl
again true = refl

known : (t : Text) {a : IpAddress} → link_ip.parse t ≡ some a → a ≡ address (a.value == 2)
known t h = ground arith

narrow : (guest : Bool) → (address guest).value < 2 ^ max_prefixlen v4
narrow false = omega arith
narrow true = omega arith

link_ip-IsLawful : IsLawful link_ip
link_ip-IsLawful = record {
  parse-print = λ t {a} h. again (a.value == 2) ∙ ap some (sym (known t h));
  in_width = λ t {a} h.
      subst (λ x. x.value < 2 ^ max_prefixlen x.family) (sym (known t h)) (narrow (a.value == 2));
}

prints : (a : IpAddress) → Config_laws.not_empty (link_ip.print a) ≡ true
unfolding lit
prints a = ground arith

abbrev given : ServiceConfig
given = record {
  listen = record { address = lit "192.0.2.1"; port = 443; family = v4 };
  backend = record { address = lit "127.0.0.1"; port = 8080; family = v4 };
  cc = lit "bbr";
  memory_mib = pos 128;
  firewall_backend = lit "nft-lib";
  iptables_variant = lit "iptables";
  tun_host_address = none;
  tun_guest_address = some [];
  backlog = pos 128;
  max_connections = pos 0;
  shutdown_grace_period = pos 5000000;
  poll_interval = pos 10000;
}

abbrev completed : ServiceConfig
completed = record given {
  tun_host_address = some (lit "198.18.0.1");
  tun_guest_address = some (lit "198.18.0.2");
}

completed_run : post_init link_ip given ≡ ok completed
unfolding post_init link_addresses check_numbers lit text_eq ip_eq is_cc_name
    linux_tcp_cc.Host.Names.all_in linux_tcp_cc.Host.Config.backend_of
completed_run = refl

post_init-post_init_example : post_init link_ip completed ≡ ok completed
post_init-post_init_example =
    Config_laws.post_init-post_init link_ip link_ip-IsLawful prints given completed completed_run
