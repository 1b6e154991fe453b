-- ===== src/Host/Tun.antt =====
-- `TunQueue` and `create_tun_queue`. The calls of the operating system act on a state `S`.
pub mod Laws
pub mod Request
use linux_tcp_cc.Base.{
  ℕ, zero, suc, ◌/◌, ◌%◌, Bool, true, false, not, ◌&&◌, ◌||◌, Option, none, some, List, [], ◌∷◌,
  ◌++◌, Text, lit, ⊤, Error, value_error, runtime_error, os_error, file_exists, tun_setup_cleanup,
  Outcome, ok, raised, Action, pure, throw, lift, ◌>>=◌, ◌>>◌, raise_if, ◌==◌, leb, take, replicate,
  text_eq, if◌then◌else◌,
}
use linux_tcp_cc.Base.Decimal.{decimal}
use linux_tcp_cc.Host.Address.{v4, v6, max_prefixlen}
use linux_tcp_cc.Host.Names.{all_in, is_tun_name}
use linux_tcp_cc.Host.Config.{TunConfig}

-- `errno.EEXIST` and `errno.EBUSY`
abbrev pub eexist : ℕ
eexist = 17

abbrev pub ebusy : ℕ
ebusy = 16

abbrev pub default_name_attempts : ℕ
default_name_attempts = 8

-- `IFF_TUN | IFF_NO_PI | IFF_TUN_EXCL`
abbrev pub tun_iff_flags : ℕ
tun_iff_flags = 0x9001

abbrev pub ifnamsiz : ℕ
ifnamsiz = 16

abbrev pub ifreq_size : ℕ
ifreq_size = 40

-- What `create_tun_queue` is handed: `opener`, `ioctl` with TUNSETIFF, which returns the request
-- as the kernel left it, `runner`, `closer` and `name_factory`.
pub record TunSystem (S : Type 0) : Type 0 where
  pub opener : Action S ℕ
  pub ioctl : ℕ → List ℕ → Action S (List ℕ)
  pub runner : List Text → Action S ⊤
  pub closer : ℕ → Action S ⊤
  pub name_factory : Action S Text

-- `name` and `_fd`.
pub record TunQueue : Type 0 where
  pub name : Text
  pub fd : Option ℕ

-- `text.ljust(width, b"\0")[:width]`, which is what `struct` does for a field `{width}s`.
abbrev pub padded : ℕ → List ℕ → List ℕ
padded width bytes = take width (bytes ++ replicate width 0)

-- `_ifreq`: the name in 16 bytes, the flags in two, low byte first, and zeros up to the size.
unfoldable pub ifreq : Text → List ℕ
ifreq name =
    padded ifreq_size (padded ifnamsiz name ++ (tun_iff_flags % 256) ∷ (tun_iff_flags / 256) ∷ [])

unfoldable pub until_nul : List ℕ → List ℕ
until_nul [] = []
until_nul (b ∷ bytes) = elim (b == 0) [ true ↦ [] | false ↦ b ∷ until_nul bytes ]

unfoldable pub is_ascii : List ℕ → Bool
is_ascii [] = true
is_ascii (b ∷ bytes) = leb b 127 && is_ascii bytes

-- `_attached_name`
unfoldable pub attached_name : List ℕ → Outcome Text
unfolding until_nul is_ascii
attached_name request =
    let encoded = until_nul (take ifnamsiz request) in
    if is_ascii encoded then ok encoded else raised (runtime_error "non-ASCII interface name")

-- `name_collision` in the handler of the ioctl: a generated name that is in use.
unfoldable pub is_collision : Bool → Error → Bool
is_collision generated (os_error errno) = generated && (errno == ebusy || errno == eexist)
is_collision generated file_exists = generated
is_collision generated _ = false

-- `path and "\0" not in path`: the text can name an executable.
unfoldable pub is_path : Text → Bool
unfolding all_in
is_path [] = false
is_path (c ∷ path) = all_in (λ b. not (b == 0)) (c ∷ path)

-- How the inner `try` failed: the error, and whether the name is taken.
pub data Attempt : Type 0 where
  attached : Text → Attempt
  failed : Error → Bool → Attempt

module _ {S : Type 0} (sys : TunSystem S) (ip_path : Text) (config : TunConfig) where
  abbrev prefixed : Text → Text
  prefixed address = address ++ (lit "/" ++ decimal (max_prefixlen config.family))

  unfoldable pub address_command : Text → List Text
  address_command name =
      ip_path
      ∷ lit "address"
      ∷ lit "add"
      ∷ prefixed config.host_address
      ∷ lit "peer"
      ∷ prefixed config.guest_address
      ∷ lit "dev"
      ∷ name
      ∷ []

  unfoldable pub link_command : Text → List Text
  link_command name =
      ip_path
      ∷ lit "link"
      ∷ lit "set"
      ∷ lit "dev"
      ∷ name
      ∷ lit "mtu"
      ∷ decimal config.mtu
      ∷ lit "up"
      ∷ []

  unfoldable pub route_command : Text → List Text
  route_command name =
      ip_path
      ∷ lit "-6"
      ∷ lit "route"
      ∷ lit "replace"
      ∷ (config.guest_address ++ lit "/128")
      ∷ lit "dev"
      ∷ name
      ∷ lit "src"
      ∷ config.host_address
      ∷ []

  -- The rest of the `try` block, after the ioctl.
  unfoldable pub configure : Text → List ℕ → Action S Text
  unfolding address_command link_command route_command
  configure name request = do
    actual ← lift (attached_name request)
    raise_if (not (text_eq actual name)) (runtime_error "TUNSETIFF attached another name")
    sys.runner (address_command name)
    sys.runner (link_command name)
    elim config.family [ v4 ↦ pure tt | v6 ↦ sys.runner (route_command name) ]
    pure actual

  abbrev to_attempt : Outcome Text → Attempt
  to_attempt (ok actual) = attached actual
  to_attempt (raised e) = failed e false

  -- The whole `try` block, and `name_collision`.
  unfoldable pub attempt : Bool → Text → ℕ → S → Attempt × S
  unfolding configure is_collision ifreq
  attempt generated name fd s =
      let (r, t) = sys.ioctl fd (ifreq name) s in
      elim r [
        | raised e ↦ (failed e (is_collision generated e), t)
        | ok request ↦ let (r', u) = configure name request t in (to_attempt r', u)
      ]

  -- `_close_after_setup_error`, and then `continue` or `raise`.
  unfoldable pub after_setup_error : Error → Bool → ℕ → Action S TunQueue → Action S TunQueue
  after_setup_error e collision fd again s =
      let (r, t) = sys.closer fd s in
      elim r [
        | raised e' ↦ (raised (tun_setup_cleanup e e'), t)
        | ok _ ↦ elim collision [ true ↦ again t | false ↦ (raised e, t) ]
      ]

  -- `_validate_tun_name(name_factory() if generated else config.name or "")`
  unfoldable pub next_name : Action S Text
  next_name = do
    name ← elim config.name [ none ↦ sys.name_factory | some name ↦ pure name ]
    raise_if (not (is_tun_name name)) (value_error "TUN name")
    pure name

  abbrev generated : Bool
  generated = elim config.name [ none ↦ true | some _ ↦ false ]

  -- `for _ in range(attempts)`, and the raise behind the loop.
  unfoldable pub try_names : ℕ → Action S TunQueue
  unfolding attempt after_setup_error next_name
  try_names zero = throw file_exists
  try_names (suc attempts) =
      let again = try_names attempts in
      next_name >>= λ name. sys.opener >>= λ fd s.
      let (r, t) = attempt generated name fd s in
      elim r [
        | attached actual ↦ (ok (record { name = actual; fd = some fd }), t)
        | failed e collision ↦ after_setup_error e collision fd again t
      ]

  unfoldable pub create_tun_queue : ℕ → Action S TunQueue
  unfolding try_names is_path
  create_tun_queue max_name_attempts = do
    raise_if (not (is_path ip_path)) (value_error "ip_path")
    raise_if (not (leb 1 max_name_attempts)) (value_error "max_name_attempts")
    try_names (if generated then max_name_attempts else 1)

-- `TunQueue.close`: the object with `_fd` cleared, then the call of the closer.
unfoldable pub close : {S : Type 0} → TunSystem S → Action (TunQueue × S) ⊤
close sys (queue, s) = elim queue.fd [
  | none ↦ (ok tt, (queue, s))
  | some fd ↦ let (r, t) = sys.closer fd s in (r, (record queue { fd = none }, t))
]
