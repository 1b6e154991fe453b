-- ===== src/Tests/Queues.antt =====
-- The TUN queue on an operating system of which only the open descriptors are kept.
use linux_tcp_cc.Base.{
  ℕ, ◌%◌, ◌^◌, ◌<◌, ◌≡◌, text_eq, file_exists, refl, ap, ok-injective, Bool, true, false, Option,
  none, some, List, [], ◌∷◌, Text, lit, ok, raised, Action, os_error, ◌==◌, arith,
}
use linux_tcp_cc.Base.Int.{pos}
use linux_tcp_cc.Host.Address.{v4, max_prefixlen, IpAddress, IpModule, IsLawful, ip_eq}
use linux_tcp_cc.Host.Config.{TunConfig, tun_config}
use linux_tcp_cc.Host.Config.Laws.{IsValidTun, tun_config-IsValidTun}
use linux_tcp_cc.Host.Names.{is_tun_name}
use linux_tcp_cc.Host.Tun.{TunSystem, TunQueue, attached_name, create_tun_queue}
use linux_tcp_cc.Host.Tun.Laws.{
  Contract, IsConfigured, create_tun_queue_owns, create_tun_queue_releases,
}

abbrev Fds : Type 0
Fds = List ℕ

abbrev rest_of : Fds → Fds
rest_of [] = []
rest_of (_ ∷ rest) = rest

-- The kernel takes the request as it is, or refuses it with EBUSY.
abbrev attach : Bool → List ℕ → Action Fds (List ℕ)
attach true request fds = (ok request, fds)
attach false request fds = (raised (os_error 16), fds)

abbrev system : Bool → TunSystem Fds
system free = record {
  opener = λ fds. (ok 3, 3 ∷ fds);
  ioctl = λ _ request fds. attach free request fds;
  runner = λ _ fds. (ok tt, fds);
  closer = λ _ fds. (ok tt, rest_of fds);
  name_factory = λ fds. (ok (lit "tcpcc7"), fds);
}

abbrev of_fd : ℕ → ℕ
of_fd fd = fd

abbrev open_fds : Fds → List ℕ
open_fds fds = fds

attach-keeps : (free : Bool) (request fds : List ℕ) → (attach free request fds).1 ≡ fds
attach-keeps true request fds = refl
attach-keeps false request fds = refl

system-Contract : (free : Bool) → Contract of_fd open_fds (system free)
system-Contract free = record {
  opened = λ s fd h. ap (λ (n : ℕ). n ∷ s) (ok-injective h);
  open_refused = λ s e h. cc;
  ioctl_keeps = λ _ request s. attach-keeps free request s;
  runner_keeps = λ _ _. refl;
  name_keeps = λ _. refl;
  closed = λ _ s rest held _. ap rest_of held;
}

abbrev config : TunConfig
config = record {
  host_address = lit "10.200.0.1";
  guest_address = lit "10.200.0.2";
  family = v4;
  mtu = 1500;
  name = some (lit "tcpcc0");
}

abbrev queue : TunQueue
queue = record { name = lit "tcpcc0"; fd = some 3 }

abbrev ip_path : Text
ip_path = lit "/sbin/ip"

created : (create_tun_queue (system true) ip_path config 8 (7 ∷ [])).0 ≡ ok queue
unfolding create_tun_queue lit is_tun_name text_eq attached_name
created = refl

create_tun_queue_owns_example :
    ((fd : ℕ) × (queue.fd ≡ some fd)
      × (open_fds (create_tun_queue (system true) ip_path config 8 (7 ∷ [])).1
          ≡ of_fd fd ∷ open_fds (7 ∷ [])))
    × (is_tun_name queue.name ≡ true)
    × IsConfigured config.name queue.name
create_tun_queue_owns_example =
    create_tun_queue_owns of_fd open_fds (system true) (system-Contract true) ip_path config 8
      (7 ∷ []) queue created

-- All generated names are taken.
abbrev unnamed : TunConfig
unnamed = record config { name = none }

busy : (create_tun_queue (system false) ip_path unnamed 8 (7 ∷ [])).0 ≡ raised file_exists
unfolding create_tun_queue lit is_tun_name text_eq
busy = refl

create_tun_queue_releases_example :
    open_fds (create_tun_queue (system false) ip_path unnamed 8 (7 ∷ [])).1 ≡ open_fds (7 ∷ [])
create_tun_queue_releases_example =
    create_tun_queue_releases of_fd open_fds (system false) (system-Contract false) ip_path unnamed
      8 (7 ∷ []) file_exists busy refl

-- A module that knows addresses of one character, by its code.
abbrev read_address : Text → Option IpAddress
read_address (c ∷ []) = some (record { family = v4; value = c % 2 ^ 32; scope = [] })
read_address _ = none

abbrev toy_ip : IpModule
toy_ip = record {
  parse = read_address;
  print = λ a. a.value ∷ [];
  is_unspecified = λ a. a.value == 0;
  is_multicast = λ _. false;
}

toy_ip-parse_print :
    (t : Text) {a : IpAddress} → read_address t ≡ some a → read_address (a.value ∷ []) ≡ some a
toy_ip-parse_print [] h = cc
toy_ip-parse_print (c ∷ []) h = ground arith
toy_ip-parse_print (c ∷ d ∷ t) h = cc

toy_ip-in_width :
    (t : Text) {a : IpAddress} → read_address t ≡ some a → a.value < 2 ^ max_prefixlen a.family
toy_ip-in_width [] h = absurd (ground arith)
toy_ip-in_width (c ∷ []) h = ground arith
toy_ip-in_width (c ∷ d ∷ t) h = absurd (ground arith)

toy_ip-IsLawful : IsLawful toy_ip
toy_ip-IsLawful = record { parse-print = toy_ip-parse_print; in_width = toy_ip-in_width }

abbrev small : TunConfig
small = record {
  host_address = 1 ∷ [];
  guest_address = 2 ∷ [];
  family = v4;
  mtu = 1500;
  name = none;
}

built : tun_config toy_ip (1 ∷ []) (2 ∷ []) (pos 1500) none ≡ ok small
unfolding tun_config ip_eq
built = refl

tun_config-IsValidTun_example : IsValidTun toy_ip toy_ip-IsLawful small
tun_config-IsValidTun_example =
    tun_config-IsValidTun toy_ip toy_ip-IsLawful (1 ∷ []) (2 ∷ []) (pos 1500) none built
