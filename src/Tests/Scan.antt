-- ===== src/Tests/Scan.antt =====
-- A ruleset with one rule that a running process has marked.
use linux_tcp_cc.Host.Reports.{is_blocking}
use linux_tcp_cc.Host.Process.Laws.{has_paren}
use linux_tcp_cc.Host.Names.{strip_prefix}
use linux_tcp_cc.Host.Names.{is_tun_pattern}
use linux_tcp_cc.Host.Names.{is_nft_table_name}
use linux_tcp_cc.Host.Names.{all_in}
use linux_tcp_cc.Base.Decimal.{int_of}
use linux_tcp_cc.Base.Decimal.{digit_span}
use linux_tcp_cc.Base.Decimal.{decimal}
use linux_tcp_cc.Base.{
  inl, ◌≡◌, ◌↔◌, refl, Option, some, [], ◌∷◌, ◌++◌, Text, lit, text_eq, ok, ◌==◌, if◌then◌else◌,
  arith,
}
use linux_tcp_cc.Host.Config.{NftOwnership}
use linux_tcp_cc.Host.Marker.{marker, parse_marker}
use linux_tcp_cc.Host.Marker.Laws.{parse_marker-marker}
use linux_tcp_cc.Host.Process.{Reader, process_start_time}
use linux_tcp_cc.Host.Process.Laws.{process_start_time_command}
use linux_tcp_cc.Host.Reports.{active, Observation, OwnershipReport}
use linux_tcp_cc.Host.Ownership.{
  Json, Fields, str, list, dict, Items, end, item, none_left, field, classify, ruleset_entries,
  inspect_nft_ownership,
}
use linux_tcp_cc.Host.Ownership.Laws.{
  IsOwnedTable, inspect_nft_ownership-IsOwnedTable, classify-marker,
}

abbrev owner : NftOwnership
owner = record { pid = 42; start_time = 1000; tun_name = lit "tcpcc0" }

-- Fields 3 to 22 of /proc/PID/stat.
abbrev stat_fields : Text
stat_fields = lit " S 1 42 42 0 -1 4194560 1 0 0 0 0 0 0 0 20 0 1 0 1000 0"

-- The process 42 has another name than the process 43.
abbrev read_stat : Reader
read_stat pid =
    if pid == 42
    then ok (lit "42 (tcpcc" ++ (b')' ∷ stat_fields))
    else ok (lit "43 (a) b" ++ (b')' ∷ stat_fields))

alive : process_start_time read_stat 42 ≡ ok 1000
unfolding process_start_time lit
alive = refl

abbrev comment : Text
comment = lit "tcpcc.owner.v1 pid=42 start=1000 tun=tcpcc0"

written : marker owner ≡ comment
unfolding marker lit decimal
written = refl

abbrev rule_fields : Fields
rule_fields =
    field (lit "family") (str (lit "ip")) (
      field (lit "table") (str (lit "tcpcc_tcpcc0"))
        (field (lit "comment") (str comment) none_left))

abbrev rule : Json
rule = dict rule_fields

abbrev entries : Items
entries = item (dict (field (lit "rule") rule none_left)) end

abbrev loads : Text → Option Json
loads _ = some (dict (field (lit "nftables") (list entries) none_left))

abbrev observation : Observation
observation = record {
  resource = lit "tcpcc_tcpcc0";
  status = active;
  owner_pid = some 42;
  owner_start_time = some 1000;
  tun_name = some (lit "tcpcc0");
  detail = lit "owner pid and process start time match";
  remediation = [];
}

abbrev report : OwnershipReport
report = record { observations = observation ∷ [] }

scanned : inspect_nft_ownership loads (lit "ip") read_stat [] ≡ ok report
unfolding inspect_nft_ownership lit text_eq strip_prefix parse_marker digit_span is_tun_pattern
    all_in is_nft_table_name process_start_time int_of
scanned = refl

inspect_nft_ownership-IsOwnedTable_example :
    IsOwnedTable (lit "ip") read_stat (str (lit "tcpcc_tcpcc0")) comment
unfolding is_blocking lit text_eq linux_tcp_cc.Host.Ownership.get ruleset_entries
inspect_nft_ownership-IsOwnedTable_example =
    inspect_nft_ownership-IsOwnedTable loads (lit "ip") read_stat [] report entries
      (field (lit "rule") rule none_left) rule_fields (lit "v1 pid=42 start=1000 tun=tcpcc0")
      scanned refl refl (inl refl) refl refl refl

classified :
    classify (lit "ip") read_stat (str (lit "tcpcc_tcpcc0")) (marker owner) ≡ ok observation
unfolding classify marker lit parse_marker strip_prefix digit_span decimal is_tun_pattern all_in
    is_nft_table_name process_start_time int_of
classified = refl

classify-marker_example :
    (observation.resource ≡ lit "tcpcc_tcpcc0")
    × (observation.owner_pid ≡ some owner.pid)
    × (observation.owner_start_time ≡ some owner.start_time)
    × (observation.tun_name ≡ some owner.tun_name)
    × ((observation.status ≡ active)
        ↔ (process_start_time read_stat owner.pid ≡ ok owner.start_time))
unfolding lit is_nft_table_name all_in is_tun_pattern
classify-marker_example =
    classify-marker (lit "ip") read_stat (lit "tcpcc_tcpcc0") owner observation refl (omega arith)
      (omega arith) refl classified

parse_marker-marker_example : parse_marker (marker owner) ≡ some owner
unfolding lit is_tun_pattern all_in
parse_marker-marker_example = parse_marker-marker owner (omega arith) (omega arith) refl

process_start_time_command_example :
    process_start_time read_stat 42 ≡ process_start_time read_stat 43
unfolding lit has_paren
process_start_time_command_example =
    process_start_time_command read_stat 42 43 (lit "42 (tcpcc") (lit "43 (a) b") stat_fields refl
      refl refl
