-- ===== src/Service/Config.antt =====
-- `ServiceConfig.__post_init__`. A period is an integer number of microseconds.
pub mod Laws
use linux_tcp_cc.Base.{
  ℕ, Bool, true, false, not, ◌&&◌, ◌||◌, Option, none, some, [], ◌∷◌, Text, lit, text_eq, ◌==◌, ⊤,
  value_error, Outcome, ok, raised,
}
use linux_tcp_cc.Base.Checks.{◌>>=◌, ◌>>◌, require, reject_if, or_raise}
use linux_tcp_cc.Base.Int.{ℤ, pos, leb_ℤ}
use linux_tcp_cc.Control.Request.{between}
use linux_tcp_cc.Host.Address.{Family, v4, v6, same_family, IpAddress, IpModule, ip_eq}
use linux_tcp_cc.Host.Config.{backend_of}
use linux_tcp_cc.Host.Names.{is_cc_name}
use linux_tcp_cc.Service.Runtime.{Endpoint}

pub record ServiceConfig : Type 0 where
  pub listen : Endpoint
  pub backend : Endpoint
  pub cc : Text
  pub memory_mib : ℤ
  pub firewall_backend : Text
  pub iptables_variant : Text
  pub tun_host_address : Option Text
  pub tun_guest_address : Option Text
  pub backlog : ℤ
  pub max_connections : ℤ
  pub shutdown_grace_period : ℤ
  pub poll_interval : ℤ

abbrev pub minimum_memory_mib : ℤ
minimum_memory_mib = pos 128

abbrev pub bridge_session_limit : ℤ
bridge_session_limit = pos 1048575

-- 300 seconds.
abbrev pub max_shutdown_grace_period : ℤ
max_shutdown_grace_period = pos 300000000

abbrev pub default_host : Family → Text
default_host v4 = lit "198.18.0.1"
default_host v6 = lit "fd00:198:18::1"

abbrev pub default_guest : Family → Text
default_guest v4 = lit "198.18.0.2"
default_guest v6 = lit "fd00:198:18::2"

-- `given or default`: an empty text counts as none.
abbrev pub or_default : Option Text → Text → Text
or_default none default = default
or_default (some []) default = default
or_default (some (c ∷ text)) default = c ∷ text

-- `firewall_backend in FIREWALL_BACKENDS`
abbrev pub is_firewall_backend : Text → Bool
is_firewall_backend id = elim (backend_of id) [ none ↦ false | some _ ↦ true ]

-- `iptables_variant in IPTABLES_VARIANTS`
abbrev pub is_iptables_variant : Text → Bool
is_iptables_variant variant =
    text_eq variant (lit "iptables")
    || text_eq variant (lit "iptables-nft")
    || text_eq variant (lit "iptables-legacy")

abbrev pub is_loopback : Endpoint → Bool
is_loopback e = same_family e.family v4 && text_eq e.address (lit "127.0.0.1")

module _ (ip : IpModule) where
  abbrev pub are_usable : IpAddress → IpAddress → Bool
  are_usable host guest = not (
      ip_eq host guest
      || ip.is_unspecified host
      || ip.is_unspecified guest
      || (ip.is_multicast host || ip.is_multicast guest))

  -- The addresses of the TUN link.
  unfoldable pub link_addresses : ServiceConfig → Outcome (IpAddress × IpAddress)
  link_addresses c = do
    host ←
        or_raise (ip.parse (or_default c.tun_host_address (default_host c.listen.family)))
          (value_error "TUN addresses must be literal IP addresses")
    guest ←
        or_raise (ip.parse (or_default c.tun_guest_address (default_guest c.listen.family)))
          (value_error "TUN addresses must be literal IP addresses")
    require (same_family host.family c.listen.family && same_family guest.family c.listen.family)
        (value_error "TUN and public-listener address families must match")
    require (are_usable host guest)
        (value_error "TUN addresses must be distinct usable unicast addresses")
    ok (host, guest)

  -- The tests of the numbers and of the names.
  unfoldable pub check_numbers : ServiceConfig → Outcome ⊤
  check_numbers c = do
    require (leb_ℤ minimum_memory_mib c.memory_mib) (value_error "hosted memory")
    require (is_cc_name c.cc) (value_error "cc")
    require (is_firewall_backend c.firewall_backend) (value_error "firewall backend")
    require (is_iptables_variant c.iptables_variant) (value_error "iptables variant")
    require (between (pos 1) (pos 4096) c.backlog) (value_error "backlog")
    require (between (pos 0) bridge_session_limit c.max_connections) (value_error "max connections")
    require (between (pos 0) max_shutdown_grace_period c.shutdown_grace_period)
        (value_error "shutdown grace period")
    require (between (pos 1) (pos 1000000) c.poll_interval) (value_error "poll interval")

  -- `__post_init__`, with the configuration that it leaves.
  unfoldable pub post_init : ServiceConfig → Outcome ServiceConfig
  unfolding link_addresses check_numbers
  post_init c = do
    require (is_loopback c.backend) (value_error "backend must use 127.0.0.1")
    (host, guest) ← link_addresses c
    check_numbers c
    ok (record c {
      tun_host_address = some (ip.print host);
      tun_guest_address = some (ip.print guest);
    })
