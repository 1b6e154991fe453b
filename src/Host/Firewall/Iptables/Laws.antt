-- ===== src/Host/Firewall/Iptables/Laws.antt =====
-- The iptables backend keeps the contract of a firewall.
use linux_tcp_cc.Base.{
  ◌≡◌, ◌≢◌, refl, true, false, ap, ◌∙◌, sym, Option, none, some, List, [], ◌∷◌, Text, lit, Error,
  value_error, Outcome, ok, raised, Action, Action-cases, Outcome-cases, inl, inr, arith,
}
use mathlib.Core.Path.{subst}
use linux_tcp_cc.Host.Config.{NftDnatConfig, NftOwnership}
use linux_tcp_cc.Host.Names.{is_iptables_chain_name}
use linux_tcp_cc.Host.Journal.{is_empty}
use linux_tcp_cc.Host.Network.Contract.{is_rollback}
use linux_tcp_cc.Host.Firewall.{FirewallBackend, Platform, Runner, once, current_nft_ownership}
use linux_tcp_cc.Host.Firewall.Choice.{iptables_firewall_backend}
use linux_tcp_cc.Host.Firewall.Contract.{
  Contract, Leased, Leased-Contract, chosen_name-valid, chosen_name-keeps,
}
use linux_tcp_cc.Host.Firewall.Iptables.{
  IptablesDnatLease, new_iptables_chain_name, jump_rule, iptables_restore_batch, nat_command,
  restore_flags, test_flags, run_all, close, undo_install, restore_rules, chain_name_for,
  install_chain, lease_of, install, check_compatibility,
}
use linux_tcp_cc.Host.Firewall.Iptables.Scan.{inspect_ownership}

-- What iptables promises about the user chains: `-N` adds a chain or refuses, `-X` that does not
-- fail deletes it, and no other command that is sent adds or deletes one.
pub record Applies {S R : Type 0} (of_chain : Text → R) (held : S → List R) (platform : Platform S)
    (runner : Runner S) (iptables_path restore_path save_path : Text) : Type 0 where
  pub token_keeps : (s : S) → held (platform.token_hex s).1 ≡ held s
  pub save_keeps : (s : S) → held (runner (save_path ∷ lit "-t" ∷ lit "nat" ∷ []) none s).1 ≡ held s
  pub test_keeps :
      (batch : Option Text) (s : S) → held (runner (restore_path ∷ test_flags) batch s).1 ≡ held s
  pub restore_keeps :
      (batch : Option Text) (s : S)
      → held (runner (restore_path ∷ restore_flags) batch s).1 ≡ held s
  pub jump_keeps :
      (arguments : List Text) (s : S)
      → held (runner (nat_command iptables_path (lit "-D" ∷ lit "PREROUTING" ∷ arguments)) none s).1
        ≡ held s
  pub flush_keeps :
      (name : Text) (s : S)
      → held (runner (nat_command iptables_path (lit "-F" ∷ name ∷ [])) none s).1 ≡ held s
  pub created :
      (name : Text) (s : S) (output : Text)
      → (runner (nat_command iptables_path (lit "-N" ∷ name ∷ [])) none s).0 ≡ ok output
      → held (runner (nat_command iptables_path (lit "-N" ∷ name ∷ [])) none s).1
        ≡ of_chain name ∷ held s
  pub refused :
      (name : Text) (s : S) (e : Error)
      → (runner (nat_command iptables_path (lit "-N" ∷ name ∷ [])) none s).0 ≡ raised e
      → held (runner (nat_command iptables_path (lit "-N" ∷ name ∷ [])) none s).1 ≡ held s
  pub deleted :
      (name : Text) (s : S) (rest : List R) (output : Text)
      → held s ≡ of_chain name ∷ rest
      → (runner (nat_command iptables_path (lit "-X" ∷ name ∷ [])) none s).0 ≡ ok output
      → held (runner (nat_command iptables_path (lit "-X" ∷ name ∷ [])) none s).1 ≡ rest

undo_install-raises :
    {S : Type 0} (runner : Runner S) (iptables_path name : Text) (e : Error) (s : S)
    (lease : IptablesDnatLease)
    → (undo_install runner iptables_path name e s).0 ≢ ok lease
unfolding undo_install
undo_install-raises runner iptables_path name e s lease h = ground arith

module _ {S R : Type 0} (of_chain : Text → R) (held : S → List R) (platform : Platform S)
    (runner : Runner S) (iptables_path restore_path save_path : Text)
    (tables : Applies of_chain held platform runner iptables_path restore_path save_path) where
  name_keeps :
      (wanted : Option Text) (s : S)
      → held (chain_name_for runner platform iptables_path restore_path wanted s).1 ≡ held s
  unfolding new_iptables_chain_name
  name_keeps wanted s =
      chosen_name-keeps held is_iptables_chain_name (value_error "iptables chain name") wanted
        (new_iptables_chain_name platform) s (ground (arith, tables.token_keeps s))

  check_compatibility-keeps :
      (config : NftDnatConfig) (s : S)
      → held (check_compatibility runner platform iptables_path restore_path config s).1 ≡ held s
  unfolding check_compatibility current_nft_ownership
  check_compatibility-keeps config s = grind (arith, name_keeps, tables.test_keeps)

  inspect_ownership-keeps :
      (s : S) → held (inspect_ownership platform runner iptables_path save_path s).1 ≡ held s
  unfolding inspect_ownership
  inspect_ownership-keeps s = ground (arith, tables.save_keeps s)

  close-releases :
      (lease : IptablesDnatLease) (s : S) (rest : List R)
      → lease.iptables_path ≡ iptables_path
      → lease.closed ≡ false
      → held s ≡ of_chain lease.chain_name ∷ rest
      → (once (close runner) lease s).0 ≡ ok tt
      → held (once (close runner) lease s).1 ≡ rest
  unfolding close run_all
  close-releases lease s rest path still has h =
      let jump =
        runner
          (nat_command lease.iptables_path (lit "-D" ∷ lit "PREROUTING" ∷ lease.jump_arguments))
          none s in
      let flush =
        runner (nat_command lease.iptables_path (lit "-F" ∷ lease.chain_name ∷ [])) none jump.1 in
      let delete =
        runner (nat_command lease.iptables_path (lit "-X" ∷ lease.chain_name ∷ [])) none flush.1 in
      elim (Outcome-cases delete.0) [
        | inr (e, bad) ↦ absurd (ground arith)
        | inl (output, good) ↦ ground (
          arith,
          tables.jump_keeps lease.jump_arguments s,
          tables.flush_keeps lease.chain_name jump.1,
          tables.deleted lease.chain_name flush.1 rest output,
        )
      ]

  -- After an error behind `-N`, the chain is gone or the error says that it is not.
  undo_install-keeps :
      (name : Text) (e : Error) (s : S) (rest : List R) (last : Error)
      → held s ≡ of_chain name ∷ rest
      → (undo_install runner iptables_path name e s).0 ≡ raised last
      → is_rollback last ≡ false
      → held (undo_install runner iptables_path name e s).1 ≡ rest
  unfolding undo_install run_all
  undo_install-keeps name e s rest last has h k =
      let flush = runner (nat_command iptables_path (lit "-F" ∷ name ∷ [])) none s in
      let delete = runner (nat_command iptables_path (lit "-X" ∷ name ∷ [])) none flush.1 in
      elim (Outcome-cases delete.0) [
        | inr (failure, bad) ↦ absurd (ground arith)
        | inl (output, good) ↦
            ground (arith, tables.flush_keeps name s, tables.deleted name flush.1 rest output)
      ]

  -- What the part of an install behind `-N` leaves, which began with `before`.
  abbrev Installed : List R → Text → Outcome IptablesDnatLease × S → Type 0
  Installed before name (ok lease, t) =
      (held t ≡ of_chain name ∷ before)
      × (lease.chain_name ≡ name)
      × (lease.iptables_path ≡ iptables_path)
      × (lease.closed ≡ false)
  Installed before name (raised e, t) = is_rollback e ≡ false → held t ≡ before

  undo_install-Installed :
      (name : Text) (e : Error) (s : S) (before : List R)
      → held s ≡ of_chain name ∷ before
      → Installed before name (undo_install runner iptables_path name e s)
  undo_install-Installed name e s before has =
      let r = undo_install runner iptables_path name e s in
      elim (Action-cases r) [
        | inl (lease, t, good) ↦
            absurd (undo_install-raises runner iptables_path name e s lease (ap (λ o. o.0) good))
        | inr (last, t, bad) ↦ subst (Installed before name) (sym bad) (λ kind.
            ap (λ o. held o.1) (sym bad)
            ∙ undo_install-keeps name e s before last has (ap (λ o. o.0) bad) kind)
      ]

  restore_rules-Installed :
      (config : NftDnatConfig) (owner : NftOwnership) (name : Text) (s : S) (before : List R)
      → held s ≡ of_chain name ∷ before
      → Installed before name (restore_rules runner iptables_path restore_path config owner name s)
  unfolding restore_rules
  restore_rules-Installed config owner name s before has =
      let here = restore_rules runner iptables_path restore_path config owner name s in
      let undo = undo_install runner iptables_path name in
      elim (Outcome-cases (iptables_restore_batch config name owner false)) [
        | inr (e, bad) ↦
            let end : here ≡ undo e s = ground arith in
            subst (Installed before name) (sym end) (undo_install-Installed name e s before has)
        | inl (batch, built) ↦
            elim (Action-cases (runner (restore_path ∷ restore_flags) (some batch) s)) [
              | inr (e, t, bad) ↦
                  let end : here ≡ undo e t = ground arith in
                  let still : held t ≡ of_chain name ∷ before =
                    ground (arith, tables.restore_keeps (some batch) s) in
                  subst (Installed before name) (sym end)
                    (undo_install-Installed name e t before still)
              | inl (output, t, done) ↦
                  let lease : IptablesDnatLease = record {
                    chain_name = name;
                    jump_arguments = jump_rule config name;
                    iptables_path = iptables_path;
                    closed = false;
                  } in
                  let end : here ≡ (ok lease, t) = ground arith in
                  let still : held t ≡ of_chain name ∷ before =
                    ground (arith, tables.restore_keeps (some batch) s) in
                  subst (Installed before name) (sym end) (still, refl, refl, refl)
            ]
      ]

  valid_name_nonempty : (name : Text) → is_iptables_chain_name name ≡ true → is_empty name ≡ false
  unfolding is_iptables_chain_name
  valid_name_nonempty [] h = cc
  valid_name_nonempty (c ∷ name) h = refl

  abbrev create : Text → Action S Text
  create name = runner (nat_command iptables_path (lit "-N" ∷ name ∷ [])) none

  install-Leased :
      (config : NftDnatConfig) (owner : NftOwnership) (s : S)
      → Leased of_chain held
          (held s)
          (install runner platform iptables_path restore_path config owner s)
  unfolding install install_chain
  install-Leased config owner s =
      let here = install runner platform iptables_path restore_path config owner s in
      let chosen = chain_name_for runner platform iptables_path restore_path config.table_name in
      elim (Action-cases (chosen s)) [
        | inr (e, t, bad) ↦
            let end : here ≡ (raised e, t) = ground arith in
            subst (Leased of_chain held (held s)) (sym end)
              (λ _. ground (arith, name_keeps config.table_name s))
        | inl (name, t, named) ↦
            let same : held t ≡ held s = ground (arith, name_keeps config.table_name s) in
            let valid =
              chosen_name-valid is_iptables_chain_name (value_error "iptables chain name")
                config.table_name (new_iptables_chain_name platform) s (ap (λ r. r.0) named) in
            elim (Action-cases (create name t)) [
              | inr (e, u, bad) ↦
                  let end : here ≡ (raised e, u) = ground arith in
                  subst (Leased of_chain held (held s)) (sym end)
                    (λ _. ground (arith, tables.refused name t e))
              | inl (output, u, made) ↦
                  let grown : held u ≡ of_chain name ∷ held s =
                    ground (arith, tables.created name t output) in
                  let settled = restore_rules-Installed config owner name u (held s) grown in
                  elim (Action-cases
                    (restore_rules runner iptables_path restore_path config owner name u)) [
                      | inr (e, v, bad) ↦
                          let end : here ≡ (raised e, v) = ground arith in
                          subst (Leased of_chain held (held s)) (sym end)
                            (subst (Installed (held s) name) bad settled)
                      | inl (lease, v, good) ↦
                          let (has, is_name, path, still) =
                            subst (Installed (held s) name) good settled in
                          let end : here ≡ (
                            ok (lease_of runner platform iptables_path restore_path lease),
                            v,
                          ) =
                            ground arith in
                          subst (Leased of_chain held (held s)) (sym end) (
                            has ∙ ap (λ n. of_chain n ∷ held s) (sym is_name),
                            ap is_empty is_name ∙ valid_name_nonempty name valid,
                            λ w rest holds closed.
                                close-releases lease w rest path still holds closed,
                          )
                    ]
            ]
      ]

  backend_of_iptables : FirewallBackend S
  backend_of_iptables = record {
    backend_id = lit "iptables";
    inspect_ownership = inspect_ownership platform runner iptables_path save_path;
    check_compatibility = check_compatibility runner platform iptables_path restore_path;
    install = install runner platform iptables_path restore_path;
  }

  -- For an iptables whose `-N` adds a chain or refuses, whose `-X` deletes a chain if it does not
  -- fail, and whose other commands keep the chains: the scan and the dry run keep what the host
  -- holds; an install that raises leaves no chain behind, unless it raises the
  -- IptablesInstallRollbackError, which says that its cleanup failed; an install that returns adds
  -- the chain that its lease names; and a close of the newest lease that does not raise deletes
  -- that chain.
  pub iptables_firewall_backend-Contract :
      (firewall : FirewallBackend S)
      → iptables_firewall_backend platform runner iptables_path restore_path save_path ≡ ok firewall
      → Contract of_chain held firewall
  unfolding iptables_firewall_backend backend_of_iptables
  iptables_firewall_backend-Contract firewall h =
      let same : backend_of_iptables ≡ firewall = ground arith in
      subst (Contract of_chain held) same (
        Leased-Contract of_chain held backend_of_iptables inspect_ownership-keeps
          check_compatibility-keeps install-Leased)
