-- ===== src/Tests/Firewall.antt =====
-- The firewall backends on hosts of which only the installed tables or chains are kept.
use linux_tcp_cc.Base.{
  ℕ, ◌≡◌, refl, ap, Bool, true, false, Option, none, some, List, [], ◌∷◌, ◌++◌, Text, lit, ⊤,
  text_eq, Outcome, ok, raised, Action, ok-injective, os_error, inl, arith, drop, ◌∙◌, append-nil,
}
use linux_tcp_cc.Host.Address.{v4}
use linux_tcp_cc.Host.Config.{NftDnatConfig, NftOwnership}
use linux_tcp_cc.Host.Names.{
  is_nft_table_name, is_iptables_chain_name, is_owned_chain, is_table_char, all_in,
}
use linux_tcp_cc.Host.Marker.{marker}
use linux_tcp_cc.Host.Process.{Reader, process_start_time}
use linux_tcp_cc.Host.Reports.{active, Observation, OwnershipReport, is_active, is_blocking}
use linux_tcp_cc.Host.Ownership
use linux_tcp_cc.Host.Ownership.{str}
use linux_tcp_cc.Host.Shlex.{splitlines, split}
use linux_tcp_cc.Host.Firewall.{concat, FirewallBackend, Platform, Runner, current_nft_ownership}
use linux_tcp_cc.Host.Firewall.Contract.{Contract, Leased}
use linux_tcp_cc.Host.Firewall.Nft.{NftTransport, inspect_ruleset, check_compatibility, install}
use linux_tcp_cc.Host.Firewall.Nft.Laws.{Applies, install-Leased}
use linux_tcp_cc.Host.Firewall.Iptables
use linux_tcp_cc.Host.Firewall.Iptables.{iptables_restore_line, any_in}
use linux_tcp_cc.Host.Firewall.Iptables.Laws as Tables
use linux_tcp_cc.Host.Firewall.Iptables.Laws.{iptables_firewall_backend-Contract}
use linux_tcp_cc.Host.Firewall.Iptables.Lines.{split-iptables_restore_line}
use linux_tcp_cc.Host.Firewall.Iptables.Scan
use linux_tcp_cc.Host.Firewall.Iptables.Scan.{
  Entry, reserved, rule, read_lines, classify_chain, inspect_chains, inspect_ownership,
}
use linux_tcp_cc.Host.Firewall.Iptables.Owned.{IsDeclared, Markers, IsLine}
use linux_tcp_cc.Host.Firewall.Iptables.Accounted.{inspect_chains-accounted}
use linux_tcp_cc.Host.Ownership.Laws.{IsOwnedAlive}
use linux_tcp_cc.Service.Endpoint.{split_at, lacks}
use linux_tcp_cc.Service.Endpoint.Laws.{split_at-append}
use linux_tcp_cc.Host.Firewall.Nft.Batch.{nft_batch, is_one_line}
use linux_tcp_cc.Host.Firewall.Choice.{iptables_firewall_backend}
use linux_tcp_cc.Host.Firewall.Identity.{classify-current_nft_ownership}

-- A process 42 that started at 1000.
abbrev stat : Text
stat = lit "42 (tcpcc) S 1 1 1 0 -1 0 0 0 0 0 0 0 0 0 20 0 1 0 1000 0"

abbrev proc : Reader
proc pid = ok stat

abbrev drop_newest {ℓ} : {A : Type ℓ} → List A → List A
drop_newest [] = []
drop_newest (_ ∷ rest) = rest

abbrev platform : (R : Type 0) → Platform (List R)
platform R = record {
  loads = λ _. none;
  proc = λ _. proc;
  getpid = 42;
  token_hex = λ held. (ok (lit "0a1b2c3d4e5f"), held);
}

-- A host with a list of tables. A batch gives the word behind its `create table ip`.
abbrev second : List Text → Text
second (_ ∷ word ∷ _) = word
second _ = []

abbrev first_part : Option (Text × Text) → Text
first_part none = []
first_part (some (part, _)) = part

abbrev created : Option Text → Text
created none = []
created (some batch) = first_part (split_at 10 (drop 16 batch))

abbrev after_nft : Text → Option Text → List Text → List Text
after_nft word batch tables = elim (text_eq word (lit "--file")) [
  | true ↦ created batch ∷ tables
  | false ↦ elim (text_eq word (lit "delete")) [ true ↦ drop_newest tables | false ↦ tables ]
]

abbrev transport : NftTransport (List Text)
transport = record {
  backend_id = lit "nft-exec";
  command_name = lit "nft";
  run = λ argv batch tables. (ok tt, after_nft (second argv) batch tables);
  read = λ _ tables. (ok [], tables);
}

abbrev of_table : Text → Text
of_table name = name

abbrev tables_of : List Text → List Text
tables_of tables = tables

table_char_lacks : (text : Text) → all_in is_table_char text ≡ true → lacks 10 text ≡ true
unfolding all_in
table_char_lacks [] h = refl
table_char_lacks (c ∷ text) h = ground (arith, table_char_lacks text)

table_name_lacks : (name : Text) → is_nft_table_name name ≡ true → lacks 10 name ≡ true
unfolding is_nft_table_name all_in
table_name_lacks [] h = cc
table_name_lacks (c ∷ name) h = ground (arith, table_char_lacks name)

-- The table of a batch of three lines.
created_lem :
    (name line : Text)
    → is_nft_table_name name ≡ true
    → created (some (nft_batch (lit "ip") name line)) ≡ name
unfolding lit concat
created_lem name line valid =
    let whole : name ++ [] ≡ name = append-nil name in
    ap first_part
      (split_at-append 10 (name ++ []) _ (ap (lacks 10) whole ∙ table_name_lacks name valid))
    ∙ whole

transport-Applies : Applies (lit "ip") of_table tables_of (platform Text) transport
unfolding lit text_eq
transport-Applies = record {
  token_keeps = λ _. refl;
  read_keeps = λ _ _. refl;
  check_keeps = λ _ _. refl;
  applied = λ name line s valid _ _. ap (λ x. x ∷ s) (created_lem name line valid);
  refused = λ _ _ e h. cc;
  deleted = λ _ _ _ has _. ap drop_newest has;
}

abbrev dnat : NftDnatConfig
dnat = record {
  listen_address = lit "192.0.2.1";
  listen_port = 443;
  target_address = lit "198.18.0.2";
  target_port = 443;
  table_name = none;
  family = v4;
}

abbrev holder : NftOwnership
holder = record { pid = 42; start_time = 1000; tun_name = lit "tcpcc0" }

one_line : is_one_line dnat holder ≡ true
unfolding lit all_in
one_line = refl

-- The table is there, under the name of the lease.
installed_run :
    (install (platform Text) transport (lit "ip") dnat holder []).1 ≡ lit "tcpcc_0a1b2c3d4e5f" ∷ []
unfolding install lit text_eq is_nft_table_name all_in concat split_at
    linux_tcp_cc.Host.Firewall.Nft.dnat_batch linux_tcp_cc.Host.Tun.is_path
installed_run = refl

install-Leased_example :
    Leased of_table tables_of [] (install (platform Text) transport (lit "ip") dnat holder [])
install-Leased_example =
    install-Leased (lit "ip") of_table tables_of (platform Text) transport transport-Applies dnat
      holder [] one_line

-- A host with a list of user chains.
abbrev after_iptables : List Text → List Text → List Text
after_iptables (_ ∷ _ ∷ _ ∷ _ ∷ action ∷ name ∷ []) chains = elim (text_eq action (lit "-N")) [
  | true ↦ name ∷ chains
  | false ↦ elim (text_eq action (lit "-X")) [ true ↦ drop_newest chains | false ↦ chains ]
]
after_iptables _ chains = chains

abbrev runner : Runner (List Text)
runner argv _ chains = (ok [], after_iptables argv chains)

abbrev of_chain : Text → Text
of_chain name = name

abbrev chains_of : List Text → List Text
chains_of chains = chains

abbrev tool : Text
tool = lit "iptables"

jump_ignored :
    (arguments chains : List Text)
    → after_iptables
        (tool ∷ lit "--wait" ∷ lit "-t" ∷ lit "nat" ∷ lit "-D" ∷ lit "PREROUTING" ∷ arguments)
        chains
      ≡ chains
unfolding lit text_eq
jump_ignored [] chains = refl
jump_ignored (_ ∷ _) chains = refl

runner-Applies :
    Tables.Applies of_chain chains_of
      (platform Text)
      runner
      tool
      (lit "iptables-restore")
      (lit "iptables-save")
unfolding lit text_eq
runner-Applies = record {
  token_keeps = λ _. refl;
  save_keeps = λ _. refl;
  test_keeps = λ _ _. refl;
  restore_keeps = λ _ _. refl;
  jump_keeps = jump_ignored;
  flush_keeps = λ _ _. refl;
  created = λ _ _ _ _. refl;
  refused = λ _ _ e h. cc;
  deleted = λ _ _ _ _ has _. ap drop_newest has;
}

abbrev iptables : FirewallBackend (List Text)
iptables = record {
  backend_id = lit "iptables";
  inspect_ownership = inspect_ownership (platform Text) runner tool (lit "iptables-save");
  check_compatibility =
      Iptables.check_compatibility runner (platform Text) tool (lit "iptables-restore");
  install = Iptables.install runner (platform Text) tool (lit "iptables-restore");
}

iptables_built :
    iptables_firewall_backend
      (platform Text)
      runner
      tool
      (lit "iptables-restore")
      (lit "iptables-save")
    ≡ ok iptables
unfolding iptables_firewall_backend lit
iptables_built = refl

iptables_firewall_backend-Contract_example : Contract of_chain chains_of iptables
iptables_firewall_backend-Contract_example =
    iptables_firewall_backend-Contract of_chain chains_of (platform Text) runner tool
      (lit "iptables-restore") (lit "iptables-save") runner-Applies iptables iptables_built

-- An argument with a space is quoted, and read back.
abbrev dnat_words : List Text
dnat_words = lit "-j" ∷ lit "DNAT" ∷ lit "--comment" ∷ lit "a b" ∷ []

abbrev dnat_line : Text
dnat_line = lit "-A C -j DNAT --comment " ++ (34 ∷ (lit "a b" ++ (34 ∷ [])))

rendered : iptables_restore_line (lit "C") dnat_words ≡ ok dnat_line
unfolding iptables_restore_line lit
rendered = refl

split-iptables_restore_line_example : split dnat_line ≡ some (lit "-A" ∷ lit "C" ∷ dnat_words)
unfolding lit all_in any_in
split-iptables_restore_line_example =
    split-iptables_restore_line (lit "C") dnat_words dnat_line rendered refl refl refl

-- One chain, declared and marked by the process 42.
abbrev owner : NftOwnership
owner = record { pid = 42; start_time = 1000; tun_name = lit "tcpcc0" }

abbrev chain_name : Text
chain_name = lit "TCPCC_0a1b2c3d4e5f"

abbrev saved : Text
saved =
    lit ":TCPCC_0a1b2c3d4e5f - [0:0]"
    ++ (10
        ∷ (lit "-A TCPCC_0a1b2c3d4e5f --comment "
            ++ (34 ∷ (lit "tcpcc.owner.v1 pid=42 start=1000 tun=tcpcc0" ++ (34 ∷ 10 ∷ [])))))

abbrev report : OwnershipReport
report = record {
  observations =
      Scan.observation tool proc chain_name owner
        (active, lit "owner pid and process start time match")
      ∷ [];
}

scanned : inspect_chains tool proc saved ≡ ok report
unfolding inspect_chains lit linux_tcp_cc.Host.Names.strip_prefix linux_tcp_cc.Host.Process.split
    is_owned_chain split text_eq linux_tcp_cc.Host.Marker.parse_marker
    linux_tcp_cc.Base.Decimal.digit_span linux_tcp_cc.Host.Names.is_tun_pattern
    is_iptables_chain_name process_start_time linux_tcp_cc.Base.Decimal.int_of
scanned = refl

clear : is_blocking report ≡ false
unfolding is_blocking
clear = refl

-- The first line of the output.
abbrev declaration : Text
declaration = lit ":TCPCC_0a1b2c3d4e5f - [0:0]"

is_line : IsLine declaration (splitlines saved)
unfolding lit splitlines
is_line = inl refl

declares : IsDeclared declaration chain_name
unfolding lit is_owned_chain linux_tcp_cc.Host.Names.strip_prefix linux_tcp_cc.Host.Process.split
    all_in
declares = record {
  rest = lit "TCPCC_0a1b2c3d4e5f - [0:0]";
  words = lit "-" ∷ lit "[0:0]" ∷ [];
  line_is = refl;
  words_are = refl;
  is_owned = refl;
}

inspect_chains-accounted_example :
    (comment : Text) × Markers chain_name (splitlines saved) (comment ∷ [])
    × IsOwnedAlive proc comment
inspect_chains-accounted_example =
    inspect_chains-accounted tool proc saved report declaration chain_name scanned clear is_line
      (inl declares)

own : (current_nft_ownership (platform ⊤) (lit "tcpcc0") []).0 ≡ ok owner
unfolding current_nft_ownership lit process_start_time linux_tcp_cc.Host.Names.is_tun_name all_in
    text_eq
own = refl

classify-current_nft_ownership_example :
    ((found : Observation) × (Ownership.classify
          (lit "ip")
          proc
          (str (lit "tcpcc_1"))
          (marker owner)
        ≡ ok found)
      × (is_active found ≡ true)
      × (found.owner_pid ≡ some 42)
      × (found.tun_name ≡ some (lit "tcpcc0")))
    × ((found : Observation) × (classify_chain tool proc chain_name (marker owner ∷ []) ≡ ok found)
        × (is_active found ≡ true)
        × (found.owner_pid ≡ some 42)
        × (found.tun_name ≡ some (lit "tcpcc0")))
unfolding lit is_nft_table_name is_iptables_chain_name all_in
classify-current_nft_ownership_example =
    classify-current_nft_ownership (platform ⊤) (lit "tcpcc0") [] owner (lit "ip") (lit "tcpcc_1")
      tool chain_name own refl refl
