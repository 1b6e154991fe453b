-- ===== src/Host/Firewall/Nft/Laws.antt =====
-- The nftables backend keeps the contract of a firewall.
use linux_tcp_cc.Base.{
  ◌∙◌, ◌≡◌, refl, text_eq, [], value_error, true, false, ap, sym, Option, none, some, List, ◌∷◌,
  Text, Error, Outcome, ok, raised, Action-cases, Bool-cases, inl, inr, text_eq_iff, arith,
}
use mathlib.Core.Path.{subst}
use linux_tcp_cc.Service.Endpoint.{lacks}
use linux_tcp_cc.Host.Config.{NftDnatConfig, NftOwnership, table_family}
use linux_tcp_cc.Host.Names.{is_nft_table_name}
use linux_tcp_cc.Host.Journal.{is_empty}
use linux_tcp_cc.Host.Tun.{is_path}
use linux_tcp_cc.Host.Firewall.{concat, Platform, chosen_name, once, current_nft_ownership}
use linux_tcp_cc.Host.Firewall.Contract.{chosen_name-valid, chosen_name-keeps, Leased}
use linux_tcp_cc.Host.Firewall.Nft.{
  NftTransport, NftDnatLease, dnat_batch, new_nft_table_name, file_command, check_command,
  delete_command, list_command, check_nft_dnat_compatibility, close, install_nft_dnat, lease_of,
  inspect_ruleset, check_compatibility, install,
}
use linux_tcp_cc.Host.Firewall.Nft.Batch.{
  nft_batch, is_one_line, rule_parts, dnat_batch-nft_batch, rule-lacks,
}

-- What nft promises: three such lines, if they are accepted, leave the table that they create; a
-- batch is applied as a whole or not at all, a dry run and a listing change nothing, and a table
-- that was deleted without an error is gone. `of_table` is the resource of a
-- table of this family.
pub record Applies {S R : Type 0} (family : Text) (of_table : Text → R) (held : S → List R)
    (platform : Platform S) (transport : NftTransport S) : Type 0 where
  pub token_keeps : (s : S) → held (platform.token_hex s).1 ≡ held s
  pub read_keeps : (argv : List Text) (s : S) → held (transport.read argv s).1 ≡ held s
  pub check_keeps :
      (batch : Option Text) (s : S)
      → held (transport.run (check_command transport.command_name) batch s).1 ≡ held s
  pub applied :
      (name rule : Text) (s : S)
      → is_nft_table_name name ≡ true
      → lacks 10 rule ≡ true
      → let r =
          transport.run
            (file_command transport.command_name)
            (some (nft_batch family name rule))
            s in
        r.0 ≡ ok tt → held r.1 ≡ of_table name ∷ held s
  pub refused :
      (batch : Option Text) (s : S) (e : Error)
      → (transport.run (file_command transport.command_name) batch s).0 ≡ raised e
      → held (transport.run (file_command transport.command_name) batch s).1 ≡ held s
  pub deleted :
      (name : Text) (s : S) (rest : List R)
      → held s ≡ of_table name ∷ rest
      → (transport.run (delete_command transport.command_name family name) none s).0 ≡ ok tt
      → held (transport.run (delete_command transport.command_name family name) none s).1 ≡ rest

module _ {S R : Type 0} (family : Text) (of_table : Text → R) (held : S → List R)
    (platform : Platform S) (transport : NftTransport S)
    (nft : Applies family of_table held platform transport) where
  name_keeps :
      (error : Error) (wanted : Option Text) (s : S)
      → held (chosen_name is_nft_table_name error wanted (new_nft_table_name platform) s).1 ≡ held s
  unfolding new_nft_table_name
  name_keeps error wanted s =
      chosen_name-keeps held is_nft_table_name error wanted (new_nft_table_name platform) s
        (ground (arith, nft.token_keeps s))

  inspect_ruleset-keeps : (s : S) → held (inspect_ruleset platform transport family s).1 ≡ held s
  unfolding inspect_ruleset
  inspect_ruleset-keeps s =
      ground (arith, nft.read_keeps (list_command transport.command_name family) s)

  check_nft_dnat_compatibility-keeps :
      (config : NftDnatConfig) (owner : NftOwnership) (s : S)
      → held (check_nft_dnat_compatibility platform transport config owner s).1 ≡ held s
  unfolding check_nft_dnat_compatibility
  check_nft_dnat_compatibility-keeps config owner s =
      let error = value_error "nftables table name" in
      let chosen = chosen_name is_nft_table_name error none (new_nft_table_name platform) in
      elim (Action-cases (chosen s)) [
        | inr (e, t, bad) ↦ ground (arith, name_keeps error none s)
        | inl (name, t, named) ↦ ground (
          arith,
          name_keeps error none s,
          nft.check_keeps (some (dnat_batch config name (some owner))) t,
        )
      ]

  check_compatibility-keeps :
      (config : NftDnatConfig) (s : S)
      → held (check_compatibility platform transport family config s).1 ≡ held s
  unfolding check_compatibility current_nft_ownership
  check_compatibility-keeps config s = grind (arith, check_nft_dnat_compatibility-keeps)

  -- What an install that began with `before` leaves.
  abbrev Installed : List R → Outcome NftDnatLease × S → Type 0
  Installed before (ok lease, t) =
      (held t ≡ of_table lease.table_name ∷ before)
      × (is_nft_table_name lease.table_name ≡ true)
      × (lease.nft_path ≡ transport.command_name)
      × (lease.table_family ≡ family)
      × (lease.closed ≡ false)
  Installed before (raised e, t) = held t ≡ before

  -- The batch of `_dnat_batch` is three such lines.
  applied_batch :
      (config : NftDnatConfig) (name : Text) (owner : NftOwnership) (s : S)
      → is_one_line config owner ≡ true
      → table_family config.family ≡ family
      → is_nft_table_name name ≡ true
      → let r =
          transport.run
            (file_command transport.command_name)
            (some (dnat_batch config name (some owner)))
            s in
        r.0 ≡ ok tt → held r.1 ≡ of_table name ∷ held s
  applied_batch config name owner s plain fits valid h =
      let rule = concat (rule_parts config (some owner)) in
      let is : nft_batch family name rule ≡ dnat_batch config name (some owner) =
        sym
          (dnat_batch-nft_batch config name (some owner) ∙ ap (λ f. nft_batch f name rule) fits) in
      subst
        (λ b.
          let r = transport.run (file_command transport.command_name) (some b) s in
          r.0 ≡ ok tt → held r.1 ≡ of_table name ∷ held s)
        is (nft.applied name rule s valid (rule-lacks config owner plain)) h

  install_nft_dnat-Installed :
      (config : NftDnatConfig) (ownership : NftOwnership) (s : S)
      → is_one_line config ownership ≡ true
      → table_family config.family ≡ family
      → Installed (held s) (install_nft_dnat platform transport config (some ownership) s)
  unfolding install_nft_dnat
  install_nft_dnat-Installed config ownership s plain fits =
      let owner = some ownership in
      let error = value_error "nftables table name" in
      let chosen =
        chosen_name is_nft_table_name error config.table_name (new_nft_table_name platform) in
      let here = install_nft_dnat platform transport config owner s in
      elim (Bool-cases (is_path transport.command_name)) [
        | inr bad ↦
            let end : here ≡ (raised (value_error "nft_path"), s) = ground arith in
            subst (Installed (held s)) (sym end) refl
        | inl good ↦ elim (Action-cases (chosen s)) [
          | inr (e, t, bad) ↦
              let end : here ≡ (raised e, t) = ground arith in
              subst (Installed (held s)) (sym end)
                (ground (arith, name_keeps error config.table_name s))
          | inl (name, t, named) ↦
              elim (Action-cases (
                transport.run (file_command transport.command_name)
                  (some (dnat_batch config name owner)) t)) [
                    | inr (e, u, bad) ↦
                        let end : here ≡ (raised e, u) = ground arith in
                        subst (Installed (held s)) (sym end) (
                          ground (
                            arith,
                            name_keeps error config.table_name s,
                            nft.refused (some (dnat_batch config name owner)) t e,
                          ))
                    | inl (_, u, done) ↦
                        let lease : NftDnatLease = record {
                          table_name = name;
                          backend_id = transport.backend_id;
                          nft_path = transport.command_name;
                          table_family = table_family config.family;
                          closed = false;
                        } in
                        let end : here ≡ (ok lease, u) = ground arith in
                        subst (Installed (held s)) (sym end) (
                          ground (
                            arith,
                            name_keeps error config.table_name s,
                            applied_batch config name ownership t plain fits (
                                chosen_name-valid is_nft_table_name error config.table_name
                                  (new_nft_table_name platform) s (ap (λ r. r.0) named)),
                          ),
                          chosen_name-valid is_nft_table_name error config.table_name
                              (new_nft_table_name platform) s (ap (λ r. r.0) named),
                          refl,
                          fits,
                          refl,
                        )
                  ]
        ]
      ]

  close-releases :
      (lease : NftDnatLease) (s : S) (rest : List R)
      → lease.nft_path ≡ transport.command_name
      → lease.table_family ≡ family
      → lease.closed ≡ false
      → held s ≡ of_table lease.table_name ∷ rest
      → (once (close platform transport) lease s).0 ≡ ok tt
      → held (once (close platform transport) lease s).1 ≡ rest
  unfolding close
  close-releases lease s rest path fam still has h =
      ground (arith, nft.deleted lease.table_name s rest)

  valid_name_nonempty : (name : Text) → is_nft_table_name name ≡ true → is_empty name ≡ false
  unfolding is_nft_table_name
  valid_name_nonempty [] h = cc
  valid_name_nonempty (c ∷ name) h = refl

  -- For an nft that applies a batch as a whole or not at all, and leaves the table that a batch of
  -- three such lines creates; for a configuration with addresses of one line, and an owner with a
  -- name of one line: an install by the nftables backend for one address family that raises leaves
  -- nothing behind; an install that returns adds exactly the table that its lease names; and a
  -- close of that lease while its table is the newest resource deletes it, unless it raises.
  pub install-Leased :
      (config : NftDnatConfig) (owner : NftOwnership) (s : S)
      → is_one_line config owner ≡ true
      → Leased of_table held (held s) (install platform transport family config owner s)
  unfolding install
  install-Leased config owner s plain =
      let here = install platform transport family config owner s in
      elim (Bool-cases (text_eq (table_family config.family) family)) [
        | inr differs ↦
            let end : here ≡ (raised (value_error "nftables backend address family"), s) =
              ground arith in
            subst (Leased of_table held (held s)) (sym end) (λ _. refl)
        | inl same ↦
            let fits = (text_eq_iff (table_family config.family) family).0 same in
            let settled = install_nft_dnat-Installed config owner s plain fits in
            elim (Action-cases (install_nft_dnat platform transport config (some owner) s)) [
              | inr (e, t, bad) ↦
                  let end : here ≡ (raised e, t) = ground arith in
                  subst (Leased of_table held (held s)) (sym end)
                    (λ _. subst (Installed (held s)) bad settled)
              | inl (lease, t, good) ↦
                  let (grown, valid, path, fam, still) = subst (Installed (held s)) good settled in
                  let end : here ≡ (ok (lease_of platform transport lease), t) = ground arith in
                  subst (Leased of_table held (held s)) (sym end) (
                    grown,
                    valid_name_nonempty lease.table_name valid,
                    λ u rest has closed. close-releases lease u rest path fam still has closed,
                  )
            ]
      ]
