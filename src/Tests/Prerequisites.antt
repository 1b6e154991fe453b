-- ===== src/Tests/Prerequisites.antt =====
-- A host that meets every requirement but filters reverse paths.
use linux_tcp_cc.Base.{
  ◌≡◌, refl, true, false, none, some, [], ◌∷◌, ◌++◌, Text, lit, Outcome, ok, raised, os_error,
  text_eq, if◌then◌else◌,
}
use linux_tcp_cc.Host.Address.{v4}
use linux_tcp_cc.Host.Config.{nft_exec}
use linux_tcp_cc.Host.Inspector.{HostInspector}
use linux_tcp_cc.Host.Names.{is_cc_name}
use linux_tcp_cc.Host.Preflight.{check, collect_preflight}
use linux_tcp_cc.Host.Preflight.Laws.{is_ready, collect_preflight-is_ok}
use linux_tcp_cc.Host.Reports.{PreflightReport, advisory, required, is_ok}

abbrev read_file : Text → Outcome Text
read_file path =
    if text_eq path (lit "self/status")
    then ok (lit "Name: x" ++ (10 ∷ lit "CapEff: 0000000000001000") ++ (10 ∷ []))
    else if text_eq path (lit "sys/net/ipv4/ip_forward")
    then ok (b'1' ∷ 10 ∷ [])
    else raised (os_error 2)

abbrev ready_host : HostInspector
ready_host = record {
  reader = read_file;
  statter = ok 0x21B6;
  access = ok true;
  resolver = λ name. ok (some (lit "/sbin/" ++ name));
  library_resolver = λ _. ok none;
}

abbrev review : Text
review = lit "review reverse-path filtering for the routed TUN path; tcpcc will not change it"

-- The checks that come out, with the advisory ones last.
abbrev report : PreflightReport
report = record {
  requested_cc = lit "bbr";
  checks =
      check (lit "cap.net_admin") true required (lit "0x1000")
        (lit "effective CAP_NET_ADMIN bit 12") []
      ∷ check (lit "device.tun") true required (lit "character-device-with-read-write-access")
          (lit "/dev/net/tun character device with read/write access") []
      ∷ check (lit "tool.ip") true required (lit "/sbin/ip") (lit "ip executable on PATH") []
      ∷ check (lit "tool.nft") true required (lit "/sbin/nft") (lit "nft executable on PATH") []
      ∷ check (lit "sysctl.ipv4_forward") true required (lit "1") (lit "1") []
      ∷ check (lit "sysctl.rp_filter.all") false advisory (lit "missing") (lit "0") review
      ∷ check (lit "sysctl.rp_filter.default") false advisory (lit "missing") (lit "0") review
      ∷ [];
}

collected :
    collect_preflight ready_host
      (lit "nft")
      (lit "iptables")
      (lit "iptables-restore")
      (lit "iptables-save")
      (lit "bbr")
      v4
      nft_exec
    ≡ ok report
unfolding collect_preflight lit is_cc_name text_eq
collected = refl

collect_preflight-is_ok_example :
    (is_ok report
      ≡ is_ready ready_host
          (lit "nft")
          (lit "iptables")
          (lit "iptables-restore")
          (lit "iptables-save")
          v4
          nft_exec)
    × (report.requested_cc ≡ lit "bbr")
    × (is_cc_name (lit "bbr") ≡ true)
collect_preflight-is_ok_example =
    collect_preflight-is_ok ready_host (lit "nft") (lit "iptables") (lit "iptables-restore")
      (lit "iptables-save") (lit "bbr") v4 nft_exec report collected
