-- ===== src/Host/Config.antt =====
-- The validated inputs of tools/tcpcc_host.py: `TunConfig`, `NftDnatConfig`, `NftOwnership` and
-- `HostNetworkConfig`, each built by its `__post_init__`. The types of the arguments stand for the
-- `isinstance` tests. A number that has passed its range test is kept as a natural number.
pub mod Laws
use linux_tcp_cc.Base.{
  ℕ, Bool, true, not, ◌&&◌, Option, none, some, Text, lit, text_eq, String, ◌++◌, value_error,
  Outcome, ok, if◌then◌else◌,
}
use linux_tcp_cc.Base.Int.{ℤ, pos, pos_part, leb_ℤ}
use linux_tcp_cc.Base.Decimal.{decimal}
use linux_tcp_cc.Base.Checks.{◌>>=◌, ◌>>◌, reject_if, require, or_raise}
use linux_tcp_cc.Host.Address.{Family, v4, v6, same_family, IpAddress, ip_eq, IpModule}
use linux_tcp_cc.Host.Names.{is_cc_name, is_tun_name, is_nft_table_name}

-- `low <= value <= high`
abbrev pub in_range : ℕ → ℕ → ℤ → Bool
in_range low high value = leb_ℤ (pos low) value && leb_ℤ value (pos high)

abbrev pub is_valid_or_none : (Text → Bool) → Option Text → Bool
is_valid_or_none test none = true
is_valid_or_none test (some name) = test name

abbrev pub default_tun_mtu : ℕ
default_tun_mtu = 1500

-- `MIN_IPV4_MTU` and `MIN_IPV6_MTU`
abbrev pub minimum_mtu : Family → ℕ
minimum_mtu v4 = 68
minimum_mtu v6 = 1280

abbrev pub max_ipv4_mtu : ℕ
max_ipv4_mtu = 65535

pub record TunConfig : Type 0 where
  pub host_address : Text
  pub guest_address : Text
  pub family : Family
  pub mtu : ℕ
  pub name : Option Text

pub record NftDnatConfig : Type 0 where
  pub listen_address : Text
  pub listen_port : ℕ
  pub target_address : Text
  pub target_port : ℕ
  pub table_name : Option Text
  pub family : Family

pub record NftOwnership : Type 0 where
  pub pid : ℕ
  pub start_time : ℕ
  pub tun_name : Text

pub data BackendId : Type 0 where
  nft_lib nft_exec iptables : BackendId

-- `FIREWALL_BACKENDS`
unfoldable pub backend_of : Text → Option BackendId
backend_of id =
    if text_eq id (lit "nft-lib")
    then some nft_lib
    else if text_eq id (lit "nft-exec")
    then some nft_exec
    else if text_eq id (lit "iptables")
    then some iptables
    else none

pub record HostNetworkConfig : Type 0 where
  pub requested_cc : Text
  pub tun : TunConfig
  pub dnat : NftDnatConfig
  pub firewall_backend : BackendId

module _ (ip : IpModule) where
  abbrev pub usable : IpAddress → Bool
  usable a = not (ip.is_unspecified a) && not (ip.is_multicast a)

  -- `TunConfig.__post_init__`
  unfoldable pub tun_config : Text → Text → ℤ → Option Text → Outcome TunConfig
  tun_config host_address guest_address mtu name = do
    host_ip ← or_raise (ip.parse host_address) (value_error "host_address must be one IP address")
    guest_ip ←
        or_raise (ip.parse guest_address) (value_error "guest_address must be one IP address")
    require (same_family host_ip.family guest_ip.family) (value_error "families must match")
    require (usable host_ip && usable guest_ip) (value_error "must be usable unicast")
    reject_if (ip_eq host_ip guest_ip) (value_error "must be different")
    require (in_range (minimum_mtu host_ip.family) max_ipv4_mtu mtu) (value_error "TUN MTU")
    require (is_valid_or_none is_tun_name name) (value_error "TUN name")
    ok (record {
      host_address = ip.print host_ip;
      guest_address = ip.print guest_ip;
      family = host_ip.family;
      mtu = pos_part mtu;
      name = name;
    })

  -- `_validate_endpoint_address`
  unfoldable pub validate_endpoint_address : Text → String → Outcome IpAddress
  validate_endpoint_address value field = do
    address ← or_raise (ip.parse value) (value_error field)
    require (usable address) (value_error field)
    ok address

  -- `_validate_port`
  unfoldable pub validate_port : ℤ → String → Outcome ℕ
  validate_port port field = do
    require (in_range 1 65535 port) (value_error field)
    ok (pos_part port)

  -- `NftDnatConfig.__post_init__`. The equality test is on the printed addresses.
  unfoldable pub nft_dnat_config : Text → ℤ → Text → ℤ → Option Text → Outcome NftDnatConfig
  unfolding validate_endpoint_address validate_port
  nft_dnat_config listen_address listen_port target_address target_port table_name = do
    listen ← validate_endpoint_address listen_address "listen_address"
    target ← validate_endpoint_address target_address "target_address"
    listen_port' ← validate_port listen_port "listen_port"
    target_port' ← validate_port target_port "target_port"
    require (same_family listen.family target.family) (value_error "DNAT families must match")
    reject_if (text_eq (ip.print listen) (ip.print target))
        (value_error "DNAT addresses must differ")
    require (is_valid_or_none is_nft_table_name table_name) (value_error "nftables table name")
    ok (record {
      listen_address = ip.print listen;
      listen_port = listen_port';
      target_address = ip.print target;
      target_port = target_port';
      table_name = table_name;
      family = listen.family;
    })

-- `NftDnatConfig.table_family` and `address_selector`
abbrev pub table_family : Family → Text
table_family v4 = lit "ip"
table_family v6 = lit "ip6"

-- `NftDnatConfig.dnat_destination`
unfoldable pub dnat_destination : NftDnatConfig → Text
dnat_destination config = elim config.family [
  | v4 ↦ config.target_address ++ (lit ":" ++ decimal config.target_port)
  | v6 ↦ lit "[" ++ (config.target_address ++ (lit "]:" ++ decimal config.target_port))
]

-- `NftOwnership.__post_init__`
unfoldable pub nft_ownership : ℤ → ℤ → Text → Outcome NftOwnership
nft_ownership pid start_time tun_name = do
  require (leb_ℤ (pos 1) pid) (value_error "pid must be positive")
  require (leb_ℤ (pos 1) start_time) (value_error "start_time must be positive")
  require (is_tun_name tun_name) (value_error "TUN name")
  ok (record { pid = pos_part pid; start_time = pos_part start_time; tun_name = tun_name })

-- `HostNetworkConfig.__post_init__`
unfoldable pub host_network_config :
    Text → TunConfig → NftDnatConfig → Text → Outcome HostNetworkConfig
unfolding backend_of
host_network_config requested_cc tun dnat firewall_backend = do
  require (is_cc_name requested_cc) (value_error "requested_cc")
  backend ← or_raise (backend_of firewall_backend) (value_error "firewall_backend")
  require (text_eq dnat.target_address tun.guest_address) (value_error "DNAT target address")
  ok (record { requested_cc = requested_cc; tun = tun; dnat = dnat; firewall_backend = backend })
