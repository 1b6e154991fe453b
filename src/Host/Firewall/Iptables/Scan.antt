-- ===== src/Host/Firewall/Iptables/Scan.antt =====
-- `IptablesFirewallBackend.inspect_ownership`: the chains and markers in the output of
-- iptables-save, and how each chain is classified.
use linux_tcp_cc.Base.{
  Option, none, some, List, [], ◌∷◌, Text, lit, index_error, Outcome, ok, raised, Action, ◌>>=◌,
  text_eq, if◌then◌else◌,
}
use linux_tcp_cc.Host.Names.{starts_with, is_iptables_chain_name, is_owned_chain}
use linux_tcp_cc.Host.Config.{NftOwnership}
use linux_tcp_cc.Host.Marker.{parse_marker}
use linux_tcp_cc.Host.Process.{Reader, process_start_time}
use linux_tcp_cc.Host.Process as Words
use linux_tcp_cc.Host.Reports.{OwnershipStatus, active, malformed, Observation, OwnershipReport}
use linux_tcp_cc.Host.Ownership.{owner_status, malformed_detail, text_lt}
use linux_tcp_cc.Host.Shlex
use linux_tcp_cc.Host.Shlex.{splitlines}
use linux_tcp_cc.Host.Firewall.{Platform, Runner, concat}

-- `_remediation`
unfoldable pub remediation : Text → Text → Text
unfolding concat
remediation iptables_path chain_name = concat (
    lit "inspect with: "
    ∷ iptables_path
    ∷ lit " -t nat -S PREROUTING and "
    ∷ iptables_path
    ∷ lit " -t nat -S "
    ∷ chain_name
    ∷ lit "; after verifying ownership, delete the exact tcpcc.jump.v1 rule shown after "
    ∷ lit "-A PREROUTING with: "
    ∷ iptables_path
    ∷ lit " -t nat -D PREROUTING <rule arguments>; then run: "
    ∷ iptables_path
    ∷ lit " -t nat -F "
    ∷ chain_name
    ∷ lit "; then run: "
    ∷ iptables_path
    ∷ lit " -t nat -X "
    ∷ chain_name
    ∷ [])

-- An observation that names no owner.
abbrev unowned : Text → Text → Text → Observation
unowned chain_name detail advice = record {
  resource = chain_name;
  status = malformed;
  owner_pid = none;
  owner_start_time = none;
  tun_name = none;
  detail = detail;
  remediation = advice;
}

-- `tokens[tokens.index("--comment") + 1]`, if there is one.
unfoldable pub after_comment : List Text → Option Text
after_comment [] = none
after_comment (token ∷ []) = none
after_comment (token ∷ next ∷ tokens) =
    let later = after_comment (next ∷ tokens) in
    if text_eq token (lit "--comment") then some next else later

abbrev marked : Text → Option Text → Option (Text × Text)
marked chain_name none = none
marked chain_name (some comment) =
    if starts_with comment (lit "tcpcc.owner.") then some (chain_name, comment) else none

-- The chain and the comment of an appended rule with a marker.
unfoldable pub rule_marker : List Text → Option (Text × Text)
unfolding after_comment
rule_marker (append ∷ chain_name ∷ tokens) =
    if text_eq append (lit "-A")
    then marked chain_name (after_comment (append ∷ chain_name ∷ tokens))
    else none
rule_marker _ = none

-- What a line says: a chain that is declared, or the marker of a rule, or nothing.
pub data Entry : Type 0 where
  nothing : Entry
  reserved : Text → Entry
  rule : Text → Text → Entry

abbrev declared : List Text → Outcome Entry
declared [] = raised index_error
declared (chain_name ∷ _) = ok (if is_owned_chain chain_name then reserved chain_name else nothing)

abbrev rule_entry : Option (Text × Text) → Entry
rule_entry none = nothing
rule_entry (some (chain_name, comment)) = rule chain_name comment

abbrev tokens_entry : Option (List Text) → Entry
tokens_entry none = nothing
tokens_entry (some tokens) = rule_entry (rule_marker tokens)

-- The body of the loop over the lines.
unfoldable pub line_entry : Text → Outcome Entry
unfolding rule_marker
line_entry [] = ok nothing
line_entry (c ∷ line) =
    if starts_with (c ∷ line) (lit ":")
    then declared (Words.split line)
    else if starts_with (c ∷ line) (lit "-A ")
    then ok (tokens_entry (Shlex.split (c ∷ line)))
    else ok nothing

-- `reserved_chains` and `markers`, one entry for each line that counts, in order.
unfoldable pub read_lines : List Text → Outcome (List Entry)
unfolding line_entry
read_lines [] = ok []
read_lines (line ∷ lines) = elim (line_entry line) [
  | raised e ↦ raised e
  | ok entry ↦ elim (read_lines lines) [ raised e ↦ raised e | ok entries ↦ ok (entry ∷ entries) ]
]

-- `sorted` of a set: a name is put in its place once.
unfoldable pub insert_name : Text → List Text → List Text
unfolding text_lt
insert_name name [] = name ∷ []
insert_name name (other ∷ names) =
    let later = insert_name name names in
    if text_eq name other
    then other ∷ names
    else if text_lt name other
    then name ∷ other ∷ names
    else other ∷ later

-- `sorted(reserved_chains | set(markers))`
unfoldable pub chain_names : List Entry → List Text
unfolding insert_name
chain_names [] = []
chain_names (nothing ∷ entries) = chain_names entries
chain_names (reserved chain_name ∷ entries) = insert_name chain_name (chain_names entries)
chain_names (rule chain_name comment ∷ entries) = insert_name chain_name (chain_names entries)

-- `markers.get(chain_name, [])`
unfoldable pub markers_of : Text → List Entry → List Text
markers_of chain_name [] = []
markers_of chain_name (rule other comment ∷ entries) =
    let rest = markers_of chain_name entries in
    if text_eq chain_name other then comment ∷ rest else rest
markers_of chain_name (_ ∷ entries) = markers_of chain_name entries

module _ (iptables_path : Text) (reader : Reader) where
  abbrev pub observation : Text → NftOwnership → OwnershipStatus × Text → Observation
  observation chain_name o (status, detail) = record {
    resource = chain_name;
    status = status;
    owner_pid = some o.pid;
    owner_start_time = some o.start_time;
    tun_name = some o.tun_name;
    detail = detail;
    remediation = elim status [ active ↦ [] | _ ↦ remediation iptables_path chain_name ];
  }

  abbrev observed : Text → NftOwnership → Outcome (OwnershipStatus × Text) → Outcome Observation
  observed chain_name o (raised e) = raised e
  observed chain_name o (ok status) = ok (observation chain_name o status)

  abbrev malformed_chain : Text → Observation
  malformed_chain chain_name =
      if is_iptables_chain_name chain_name
      then unowned chain_name malformed_detail (remediation iptables_path chain_name)
      else unowned (lit "malformed") malformed_detail
          (lit "inspect the complete iptables nat table manually")

  -- `_classify`
  unfoldable pub classify : Text → Text → Outcome Observation
  unfolding owner_status remediation
  classify chain_name comment = elim (parse_marker comment) [
    | none ↦ ok (malformed_chain chain_name)
    | some o ↦
        if is_iptables_chain_name chain_name
        then observed chain_name o (owner_status o.start_time (process_start_time reader o.pid))
        else ok (malformed_chain chain_name)
  ]

  -- The body of the loop over the chains.
  unfoldable pub classify_chain : Text → List Text → Outcome Observation
  unfolding classify
  classify_chain chain_name (comment ∷ []) = classify chain_name comment
  classify_chain chain_name [] = ok (
      unowned chain_name (lit "reserved tcpcc chain has no ownership marker")
        (remediation iptables_path chain_name))
  classify_chain chain_name (_ ∷ _ ∷ _) = ok (
      unowned chain_name (lit "tcpcc chain has multiple ownership markers")
        (remediation iptables_path chain_name))

  unfoldable pub observe : List Entry → List Text → Outcome (List Observation)
  unfolding classify_chain markers_of
  observe entries [] = ok []
  observe entries (chain_name ∷ names) =
      elim (classify_chain chain_name (markers_of chain_name entries)) [
        | raised e ↦ raised e
        | ok o ↦ elim (observe entries names) [ raised e ↦ raised e | ok rest ↦ ok (o ∷ rest) ]
      ]

  -- `inspect_ownership` on what iptables-save printed.
  unfoldable pub inspect_chains : Text → Outcome OwnershipReport
  unfolding splitlines read_lines chain_names observe
  inspect_chains raw = elim (read_lines (splitlines raw)) [
    | raised e ↦ raised e
    | ok entries ↦ elim (observe entries (chain_names entries)) [
      | raised e ↦ raised e
      | ok observations ↦ ok (record { observations = observations })
    ]
  ]

-- `inspect_ownership`
unfoldable pub inspect_ownership :
    {S : Type 0} → Platform S → Runner S → Text → Text → Action S OwnershipReport
unfolding inspect_chains
inspect_ownership platform runner iptables_path save_path =
    runner (save_path ∷ lit "-t" ∷ lit "nat" ∷ []) none >>= λ raw s.
    (inspect_chains iptables_path (platform.proc s) raw, s)
