-- ===== src/Host/Firewall/Iptables.antt =====
-- The iptables backend: the rules, the text for iptables-restore, `IptablesDnatLease` and the
-- methods of `IptablesFirewallBackend` that change something.
pub mod Scan
pub mod Lines
pub mod Chains
pub mod Owned
pub mod Accounted
pub mod Laws
use linux_tcp_cc.Base.{
  ℕ, Bool, true, false, not, ◌||◌, Option, none, some, List, [], ◌∷◌, ◌++◌, Text, lit, ⊤, Error,
  Failures, nil, cons, value_error, install_rollback, Outcome, ok, raised, Action, pure, throw,
  lift, catch, ◌>>=◌, ◌>>◌, raise_if, ◌==◌, if◌then◌else◌,
}
use linux_tcp_cc.Base.Decimal.{decimal}
use linux_tcp_cc.Host.Address.{max_prefixlen}
use linux_tcp_cc.Host.Names.{is_iptables_chain_name}
use linux_tcp_cc.Host.Config.{NftDnatConfig, NftOwnership, dnat_destination}
use linux_tcp_cc.Host.Journal.{note_failure, report}
use linux_tcp_cc.Host.Marker.{marker}
use linux_tcp_cc.Host.Process.{is_space}
use linux_tcp_cc.Host.Network.{FirewallDnatLease}
use linux_tcp_cc.Host.Firewall.{
  Platform, Runner, concat, newline, quote, chosen_name, once, current_nft_ownership,
}

-- `_new_iptables_chain_name`
unfoldable pub new_iptables_chain_name : {S : Type 0} → Platform S → Action S Text
new_iptables_chain_name platform = do token ← platform.token_hex; pure (lit "TCPCC_" ++ token)

-- The options of `_iptables_rules` that both rules begin with.
unfoldable pub exact_options : NftDnatConfig → List Text
unfolding concat
exact_options config =
    lit "-d"
    ∷ concat (config.listen_address ∷ lit "/" ∷ decimal (max_prefixlen config.family) ∷ [])
    ∷ lit "-p"
    ∷ lit "tcp"
    ∷ lit "-m"
    ∷ lit "tcp"
    ∷ lit "--dport"
    ∷ decimal config.listen_port
    ∷ []

-- `jump` and `dnat` of `_iptables_rules`.
unfoldable pub jump_rule : NftDnatConfig → Text → List Text
unfolding exact_options
jump_rule config chain_name =
    exact_options config
    ++ (lit "-m"
        ∷ lit "comment"
        ∷ lit "--comment"
        ∷ (lit "tcpcc.jump.v1 chain=" ++ chain_name)
        ∷ lit "-j"
        ∷ chain_name
        ∷ [])

unfoldable pub dnat_rule : NftDnatConfig → NftOwnership → List Text
unfolding exact_options dnat_destination
dnat_rule config ownership =
    exact_options config
    ++ (lit "-m"
        ∷ lit "comment"
        ∷ lit "--comment"
        ∷ marker ownership
        ∷ lit "-j"
        ∷ lit "DNAT"
        ∷ lit "--to-destination"
        ∷ dnat_destination config
        ∷ [])

-- `any(test(character) for character in text)`
unfoldable pub any_in : (ℕ → Bool) → Text → Bool
any_in test [] = false
any_in test (c ∷ text) = test c || any_in test text

abbrev pub is_unsafe : ℕ → Bool
is_unsafe c = c == 34 || c == 13 || c == 10

-- The body of the loop of `_iptables_restore_line`.
unfoldable pub render : Text → Outcome Text
unfolding any_in
render argument =
    if any_in is_space argument
    then (if any_in is_unsafe argument
        then raised (value_error "iptables argument cannot be quoted safely")
        else ok (34 ∷ (argument ++ (34 ∷ []))))
    else ok argument

-- The rest of the line behind a word: `" ".join`, with the first error.
unfoldable pub render_all : List Text → Outcome Text
unfolding render
render_all [] = ok []
render_all (argument ∷ arguments) = elim (render argument) [
  | raised e ↦ raised e
  | ok text ↦ elim (render_all arguments) [
    | raised e ↦ raised e
    | ok rest ↦ ok (32 ∷ (text ++ rest))
  ]
]

-- `_iptables_restore_line`
unfoldable pub iptables_restore_line : Text → List Text → Outcome Text
unfolding render_all
iptables_restore_line chain arguments = elim (render_all arguments) [
  | raised e ↦ raised e
  | ok rest ↦ ok (lit "-A" ++ (32 ∷ (chain ++ rest)))
]

abbrev batch_lines : Bool → Text → Text → Text → Text
batch_lines declare_chain chain_name dnat jump = concat (
    lit "*nat"
    ∷ newline
    ∷ (if declare_chain then concat (lit ":" ∷ chain_name ∷ lit " - [0:0]" ∷ newline ∷ []) else [])
    ∷ dnat
    ∷ newline
    ∷ jump
    ∷ newline
    ∷ lit "COMMIT"
    ∷ newline
    ∷ [])

-- `_iptables_restore_batch`
unfoldable pub iptables_restore_batch : NftDnatConfig → Text → NftOwnership → Bool → Outcome Text
unfolding iptables_restore_line jump_rule dnat_rule concat
iptables_restore_batch config chain_name ownership declare_chain =
    elim (iptables_restore_line chain_name (dnat_rule config ownership)) [
      | raised e ↦ raised e
      | ok dnat ↦ elim (iptables_restore_line (lit "PREROUTING") (jump_rule config chain_name)) [
        | raised e ↦ raised e
        | ok jump ↦ ok (batch_lines declare_chain chain_name dnat jump)
      ]
    ]

-- `IptablesDnatLease`
pub record IptablesDnatLease : Type 0 where
  pub chain_name : Text
  pub jump_arguments : List Text
  pub iptables_path : Text
  pub closed : Bool

-- `[path, "--wait", "-t", "nat", …]`
abbrev pub nat_command : Text → List Text → List Text
nat_command path arguments = path ∷ lit "--wait" ∷ lit "-t" ∷ lit "nat" ∷ arguments

abbrev pub cleanup_label : Text → Text → Text
cleanup_label chain_name label = concat (lit "iptables:" ∷ chain_name ∷ lit ":" ∷ label ∷ [])

abbrev pub restore_flags : List Text
restore_flags = lit "--wait" ∷ lit "--noflush" ∷ []

abbrev pub test_flags : List Text
test_flags = lit "--wait" ∷ lit "--test" ∷ lit "--noflush" ∷ []

-- `if cleanup_errors: raise IptablesInstallRollbackError(…)`, or `raise`. The labels name the action.
abbrev pub undone : {A : Type 0} → Error → Failures → Outcome A
undone e nil = raised e
undone e (cons label failure rest) = raised (install_rollback e (cons label failure rest))

module _ {S : Type 0} (runner : Runner S) where
  -- The loop over the labelled commands, each in its own `try`.
  unfoldable pub run_all : List (Text × List Text) → S → Failures × S
  run_all [] s = (nil, s)
  run_all ((label, command) ∷ rest) s =
      let (r, t) = runner command none s in
      let (failures, u) = run_all rest t in
      (elim r [ ok _ ↦ failures | raised e ↦ cons label e failures ], u)

  abbrev pub release_commands : IptablesDnatLease → List (Text × List Text)
  release_commands lease =
      (
        cleanup_label lease.chain_name (lit "jump"),
        nat_command lease.iptables_path (lit "-D" ∷ lit "PREROUTING" ∷ lease.jump_arguments),
      )
      ∷ (
        cleanup_label lease.chain_name (lit "flush"),
        nat_command lease.iptables_path (lit "-F" ∷ lease.chain_name ∷ []),
      )
      ∷ (
        cleanup_label lease.chain_name (lit "delete-chain"),
        nat_command lease.iptables_path (lit "-X" ∷ lease.chain_name ∷ []),
      )
      ∷ []

  -- `IptablesDnatLease.close`
  unfoldable pub close : Action (IptablesDnatLease × S) ⊤
  unfolding run_all
  close (lease, s) = elim lease.closed [
    | true ↦ (ok tt, (lease, s))
    | false ↦
        let (failures, t) = run_all (release_commands lease) s in
        (report failures, (record lease { closed = true }, t))
  ]

  -- The handler in `install`: flush, delete, then the error, or the one that adds the failures.
  unfoldable pub undo_install : Text → Text → Error → Action S IptablesDnatLease
  unfolding run_all
  undo_install iptables_path chain_name e s =
      let (failures, t) =
        run_all
          ((lit "-F", nat_command iptables_path (lit "-F" ∷ chain_name ∷ []))
            ∷ (lit "-X", nat_command iptables_path (lit "-X" ∷ chain_name ∷ []))
            ∷ [])
          s in
      (undone e failures, t)

  -- The submission of the rules, and its handler.
  unfoldable pub restore_rules :
      Text → Text → NftDnatConfig → NftOwnership → Text → Action S IptablesDnatLease
  unfolding iptables_restore_batch undo_install jump_rule
  restore_rules iptables_path restore_path config ownership chain_name =
      catch
        (do
          batch ← lift (iptables_restore_batch config chain_name ownership false)
          _ ← runner (restore_path ∷ restore_flags) (some batch)
          pure (record {
            chain_name = chain_name;
            jump_arguments = jump_rule config chain_name;
            iptables_path = iptables_path;
            closed = false;
          }))
        (undo_install iptables_path chain_name)

  module _ (platform : Platform S) (iptables_path restore_path : Text) where
    abbrev pub chain_name_for : Option Text → Action S Text
    chain_name_for wanted =
        chosen_name is_iptables_chain_name (value_error "iptables chain name") wanted
          (new_iptables_chain_name platform)

    unfoldable pub install_chain : NftDnatConfig → NftOwnership → Action S IptablesDnatLease
    unfolding restore_rules chosen_name new_iptables_chain_name
    install_chain config ownership = do
      chain_name ← chain_name_for config.table_name
      _ ← runner (nat_command iptables_path (lit "-N" ∷ chain_name ∷ [])) none
      restore_rules iptables_path restore_path config ownership chain_name

    -- The properties of a lease that the transaction reads.
    abbrev pub lease_of : IptablesDnatLease → FirewallDnatLease S
    lease_of lease = record {
      backend_id = lit "iptables";
      resource_name = lease.chain_name;
      close = once close lease;
    }

    -- `IptablesFirewallBackend.install`
    unfoldable pub install : NftDnatConfig → NftOwnership → Action S (FirewallDnatLease S)
    unfolding install_chain
    install config ownership = do lease ← install_chain config ownership; pure (lease_of lease)

    -- `IptablesFirewallBackend.check_compatibility`
    unfoldable pub check_compatibility : NftDnatConfig → Action S ⊤
    unfolding chosen_name new_iptables_chain_name iptables_restore_batch current_nft_ownership
    check_compatibility config = do
      chain_name ← chain_name_for none
      ownership ← current_nft_ownership platform (lit "tcpcc-probe")
      batch ← lift (iptables_restore_batch config chain_name ownership true)
      _ ← runner (restore_path ∷ test_flags) (some batch)
      pure tt
