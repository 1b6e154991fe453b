-- ===== src/Host/Config/Laws.antt =====
-- What the constructors of the configurations guarantee.
use linux_tcp_cc.Base.{◌≡◌, ◌≤◌, true, false, Option-cases, inl, inr, Option, some, Text, ok, arith}
use linux_tcp_cc.Base.Int.{ℤ}
use linux_tcp_cc.Host.Address.{IpAddress, ip_eq, IpModule, IsLawful}
use linux_tcp_cc.Host.Names.{is_tun_name}
use linux_tcp_cc.Host.Config.{TunConfig, usable, is_valid_or_none, minimum_mtu, tun_config}

module _ (ip : IpModule) (lawful : IsLawful ip) where
  -- The two ends are distinct usable addresses of one family.
  pub record IsValidTun (c : TunConfig) : Type 0 where
    pub host : IpAddress
    pub guest : IpAddress
    pub host_parsed : ip.parse c.host_address ≡ some host
    pub guest_parsed : ip.parse c.guest_address ≡ some guest
    pub host_printed : c.host_address ≡ ip.print host
    pub guest_printed : c.guest_address ≡ ip.print guest
    pub host_family : host.family ≡ c.family
    pub guest_family : guest.family ≡ c.family
    pub host_usable : usable ip host ≡ true
    pub guest_usable : usable ip guest ≡ true
    pub distinct : ip_eq host guest ≡ false
    pub mtu_least : minimum_mtu c.family ≤ c.mtu
    pub mtu_most : c.mtu ≤ 65535
    pub name_valid : is_valid_or_none is_tun_name c.name ≡ true

  -- For an `ipaddress` module that reads back what it prints: a configuration that the
  -- constructor returns holds two distinct usable addresses of one family, printed the way
  -- `ipaddress` prints them, an MTU that this family allows, and a valid interface name or none.
  pub tun_config-IsValidTun :
      (host guest : Text) (mtu : ℤ) (name : Option Text) {c : TunConfig}
      → tun_config ip host guest mtu name ≡ ok c
      → IsValidTun c
  unfolding tun_config
  tun_config-IsValidTun host guest mtu name h = elim (Option-cases (ip.parse host)) [
    | inl none_host ↦ absurd (ground arith)
    | inr (a, ea) ↦ elim (Option-cases (ip.parse guest)) [
      | inl none_guest ↦ absurd (ground arith)
      | inr (b, eb) ↦ record {
        host = a;
        guest = b;
        host_parsed = ground (arith, lawful.parse-print host ea);
        guest_parsed = ground (arith, lawful.parse-print guest eb);
        host_printed = ground arith;
        guest_printed = ground arith;
        host_family = ground arith;
        guest_family = ground arith;
        host_usable = ground arith;
        guest_usable = ground arith;
        distinct = ground arith;
        mtu_least = ground arith;
        mtu_most = ground arith;
        name_valid = ground arith;
      }
    ]
  ]
