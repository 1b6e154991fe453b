-- ===== src/Host/Preflight.antt =====
-- The single checks, and `collect_preflight`.
pub mod Ready
pub mod Checks
pub mod Laws
use linux_tcp_cc.Base.{
  ℕ, ◌/◌, ◌%◌, Bool, true, false, Option, none, some, List, [], ◌∷◌, ◌++◌, Text, lit, Error,
  os_error, is_os_error, value_error, Outcome, ok, raised, ◌==◌, text_eq, if◌then◌else◌,
}
use linux_tcp_cc.Base.Checks.{◌>>=◌, ◌>>◌, require}
use linux_tcp_cc.Host.Address.{Family, v4, v6}
use linux_tcp_cc.Host.Config.{BackendId, nft_lib, nft_exec, iptables}
use linux_tcp_cc.Host.Inspector.{HostInspector, ProcRead, value, problem, read_proc, cap_observed}
use linux_tcp_cc.Host.Journal.{is_empty}
use linux_tcp_cc.Host.Names.{is_cc_name}
use linux_tcp_cc.Host.Ownership.{enoent}
use linux_tcp_cc.Host.Reports.{
  Status, pass, warn, fail, Severity, advisory, required, CheckResult, PreflightReport,
}

abbrev pub status_of : Bool → Severity → Status
status_of true severity = pass
status_of false advisory = warn
status_of false required = fail

-- `_check`
unfoldable pub check : Text → Bool → Severity → Text → Text → Text → CheckResult
check check_id passed severity observed expected remediation = record {
  check_id = check_id;
  status = status_of passed severity;
  severity = severity;
  observed = observed;
  expected = expected;
  remediation = if passed then [] else remediation;
}

-- `stat.S_ISCHR`
abbrev pub is_character : ℕ → Bool
is_character mode = mode / 4096 % 16 == 2

-- The `try` of `_tun_device`.
abbrev pub tun_access : Bool → Bool → Bool × Text
tun_access false has_access = (false, lit "not-a-character-device")
tun_access true false = (false, lit "character-device-without-read-write-access")
tun_access true true = (true, lit "character-device-with-read-write-access")

-- The `except` clauses of `_tun_device`.
abbrev pub tun_error : Error → Outcome (Bool × Text)
tun_error (os_error errno) = ok (false, if errno == enoent then lit "missing" else lit "unreadable")
tun_error e = if is_os_error e then ok (false, lit "unreadable") else raised e

-- `try: ... except OSError: resolved = None`
abbrev pub or_absent : Outcome (Option Text) → Outcome (Option Text)
or_absent (ok resolved) = ok resolved
or_absent (raised e) = if is_os_error e then ok none else raised e

abbrev pub is_found : Option Text → Bool
is_found none = false
is_found (some _) = true

-- `resolved or "missing"`
abbrev pub or_missing : Option Text → Text
or_missing none = lit "missing"
or_missing (some path) = if is_empty path then lit "missing" else path

abbrev pub is_value : ProcRead → Text → Bool
is_value (value text) expected = text_eq text expected
is_value (problem _) expected = false

abbrev pub shown : ProcRead → Text
shown (value text) = text
shown (problem word) = word

module _ (inspector : HostInspector) where
  unfoldable pub cap_net_admin : Outcome CheckResult
  unfolding read_proc cap_observed check
  cap_net_admin = do
    status ← read_proc inspector (lit "self/status")
    let (enabled, observed) = cap_observed status
    ok (
        check (lit "cap.net_admin") enabled required observed (lit "effective CAP_NET_ADMIN bit 12")
          (lit "run tcpcc with CAP_NET_ADMIN, normally via sudo or a container capability"))

  -- Whether /dev/net/tun is usable, and what was observed.
  unfoldable pub tun_observed : Outcome (Bool × Text)
  unfolding is_os_error
  tun_observed = elim inspector.statter [
    | raised e ↦ tun_error e
    | ok mode ↦ elim inspector.access [
      | raised e ↦ tun_error e
      | ok has_access ↦ ok (tun_access (is_character mode) has_access)
    ]
  ]

  unfoldable pub tun_device : Outcome CheckResult
  unfolding tun_observed check
  tun_device = do
    (usable, observed) ← tun_observed
    ok (
        check (lit "device.tun") usable required observed
          (lit "/dev/net/tun character device with read/write access")
          (lit "enable TUN for the container and grant tcpcc read/write access to /dev/net/tun"))

  -- `_tool`; the name of the check is given in full.
  unfoldable pub tool : Text → Text → Text → Outcome CheckResult
  unfolding is_os_error check
  tool name remediation check_name = do
    resolved ← or_absent (inspector.resolver name)
    ok (
        check (lit "tool." ++ check_name) (is_found resolved) required (or_missing resolved)
          (name ++ lit " executable on PATH") remediation)

  unfoldable pub library : Text → Text → Outcome CheckResult
  unfolding is_os_error check
  library name remediation = do
    resolved ← or_absent (inspector.library_resolver name)
    ok (
        check (lit "library." ++ name) (is_found resolved) required (or_missing resolved)
          (name ++ lit " shared library available to the dynamic loader") remediation)

  unfoldable pub required_sysctl : Text → Text → Text → Text → Outcome CheckResult
  unfolding read_proc check
  required_sysctl check_id relative expected remediation = do
    found ← read_proc inspector relative
    ok (check check_id (is_value found expected) required (shown found) expected remediation)

  unfoldable pub rp_filter : Text → Outcome CheckResult
  unfolding read_proc check
  rp_filter scope = do
    found ← read_proc inspector (lit "sys/net/ipv4/conf/" ++ (scope ++ lit "/rp_filter"))
    ok (
        check (lit "sysctl.rp_filter." ++ scope) (is_value found (lit "0")) advisory (shown found)
          (lit "0")
          (lit "review reverse-path filtering for the routed TUN path; tcpcc will not change it"))

  -- The commands of the iptables backend, each with the name of its check.
  unfoldable pub tools : List (Text × Text) → Outcome (List CheckResult)
  unfolding tool
  tools [] = ok []
  tools ((command, check_name) ∷ rest) = do
    first ←
        tool command (lit "install iptables and expose " ++ (command ++ lit " on PATH")) check_name
    more ← tools rest
    ok (first ∷ more)

  -- `nft_path`, `iptables_path`, `iptables_restore_path` and `iptables_save_path`.
  module _ (nft_path iptables_path restore_path save_path : Text) where
    abbrev pub iptables_tools : List (Text × Text)
    iptables_tools =
        (iptables_path, lit "iptables")
        ∷ (restore_path, lit "iptables-restore")
        ∷ (save_path, lit "iptables-save")
        ∷ []

    unfoldable pub firewall_checks : BackendId → Outcome (List CheckResult)
    unfolding tools tool library
    firewall_checks nft_exec = do
      nft ←
          tool nft_path (lit "install nftables and expose " ++ (nft_path ++ lit " on PATH"))
            (lit "nft")
      ok (nft ∷ [])
    firewall_checks nft_lib = do
      nftables ← library (lit "nftables") (lit "install the libnftables shared library")
      ok (nftables ∷ [])
    firewall_checks iptables = tools iptables_tools

    unfoldable pub forwarding_check : Family → Outcome CheckResult
    unfolding required_sysctl
    forwarding_check v4 =
        required_sysctl (lit "sysctl.ipv4_forward") (lit "sys/net/ipv4/ip_forward") (lit "1")
          (lit "set net.ipv4.ip_forward=1 before starting tcpcc")
    forwarding_check v6 =
        required_sysctl (lit "sysctl.ipv6_forward") (lit "sys/net/ipv6/conf/all/forwarding")
          (lit "1") (lit "set net.ipv6.conf.all.forwarding=1 before starting tcpcc")

    unfoldable pub family_advisories : Family → Outcome (List CheckResult)
    unfolding rp_filter
    family_advisories v6 = ok []
    family_advisories v4 = do
      for_all ← rp_filter (lit "all")
      for_default ← rp_filter (lit "default")
      ok (for_all ∷ for_default ∷ [])

    -- The checks, in their order, for a known family and backend.
    unfoldable pub all_checks : Family → BackendId → Outcome (List CheckResult)
    unfolding cap_net_admin tun_device tool firewall_checks forwarding_check family_advisories
    all_checks family backend = do
      cap ← cap_net_admin
      tun ← tun_device
      ip ← tool (lit "ip") (lit "install iproute2 and expose the ip executable on PATH") (lit "ip")
      firewall ← firewall_checks backend
      forwarding ← forwarding_check family
      advisories ← family_advisories family
      ok (cap ∷ tun ∷ ip ∷ (firewall ++ (forwarding ∷ advisories)))

    -- `collect_preflight` for a family that an address has, and one of the three backends.
    unfoldable pub collect_preflight : Text → Family → BackendId → Outcome PreflightReport
    unfolding all_checks
    collect_preflight requested_cc family backend = do
      require (is_cc_name requested_cc) (value_error "requested congestion-control name")
      checks ← all_checks family backend
      ok (record { requested_cc = requested_cc; checks = checks })
