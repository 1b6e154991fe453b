-- ===== src/Host/Firewall/Iptables/Chains.antt =====
-- The scan of the chains lets a start go on only if every tcpcc chain has one living owner.
use linux_tcp_cc.Base.{
  ◌≡◌, refl, sym, ap, ◌∙◌, true, false, Option-cases, Bool-cases, Outcome-cases, List, [], ◌∷◌,
  Text, text_eq, text_eq_iff, ok, ok-injective, inl, inr, arith, ⊤,
}
use mathlib.Core.Path.{subst}
use linux_tcp_cc.Host.Marker.{parse_marker}
use linux_tcp_cc.Host.Process.{Reader, process_start_time}
use linux_tcp_cc.Host.Reports.{Observation, OwnershipReport, any_blocking, is_active, is_blocking}
use linux_tcp_cc.Host.Ownership.{owner_status, text_lt}
use linux_tcp_cc.Host.Ownership.Laws.{IsOwnedAlive, owner_status-active}
use linux_tcp_cc.Host.Shlex.{splitlines}
use linux_tcp_cc.Host.Firewall.Iptables.Scan.{
  Entry, nothing, reserved, rule, read_lines, insert_name, chain_names, markers_of, classify,
  classify_chain, observe, inspect_chains,
}

abbrev All : (Text → Type 0) → List Text → Type 0
All P [] = ⊤
All P (name ∷ names) = P name × All P names

-- Every chain that an entry names.
abbrev pub AllChains : (Text → Type 0) → List Entry → Type 0
AllChains P [] = ⊤
AllChains P (nothing ∷ entries) = AllChains P entries
AllChains P (reserved chain_name ∷ entries) = P chain_name × AllChains P entries
AllChains P (rule chain_name comment ∷ entries) = P chain_name × AllChains P entries

module _ (P : Text → Type 0) where
  All-insert_name :
      (name : Text) (names : List Text) → All P (insert_name name names) → P name × All P names
  unfolding insert_name
  All-insert_name name [] h = h
  All-insert_name name (other ∷ names) h = elim (Bool-cases (text_eq name other)) [
    | inl same ↦
        let is : insert_name name (other ∷ names) ≡ other ∷ names = ground arith in
        let all = subst (All P) is h in (subst P (sym ((text_eq_iff name other).0 same)) all.0, all)
    | inr differ ↦ elim (Bool-cases (text_lt name other)) [
      | inl before ↦
          let is : insert_name name (other ∷ names) ≡ name ∷ other ∷ names = ground arith in
          let all = subst (All P) is h in all
      | inr after ↦
          let is : insert_name name (other ∷ names) ≡ other ∷ insert_name name names =
            ground arith in
          let all = subst (All P) is h in
          let (here, rest) = All-insert_name name names all.1 in (here, (all.0, rest))
    ]
  ]

  All-chain_names : (entries : List Entry) → All P (chain_names entries) → AllChains P entries
  unfolding chain_names
  All-chain_names [] h = tt
  All-chain_names (nothing ∷ entries) h = All-chain_names entries h
  All-chain_names (reserved chain_name ∷ entries) h =
      let (here, rest) = All-insert_name chain_name (chain_names entries) h in
      (here, All-chain_names entries rest)
  All-chain_names (rule chain_name comment ∷ entries) h =
      let (here, rest) = All-insert_name chain_name (chain_names entries) h in
      (here, All-chain_names entries rest)

module _ (iptables_path : Text) (reader : Reader) where
  -- The chain has one marker in these entries, whose process is alive.
  abbrev pub IsAccounted : List Entry → Text → Type 0
  IsAccounted entries chain_name =
      (comment : Text) × (markers_of chain_name entries ≡ comment ∷ [])
      × IsOwnedAlive reader comment

  classify-active :
      (chain_name comment : Text) (o : Observation)
      → classify iptables_path reader chain_name comment ≡ ok o
      → is_active o ≡ true
      → IsOwnedAlive reader comment
  unfolding classify
  classify-active chain_name comment o h a = elim (Option-cases (parse_marker comment)) [
    | inl bad ↦ absurd (ground arith)
    | inr (owner, parsed) ↦
        elim (Outcome-cases (owner_status owner.start_time (process_start_time reader owner.pid))) [
          | inr (e, failed) ↦ absurd (ground arith)
          | inl (status, e) ↦ (
            owner,
            parsed,
            owner_status-active owner (process_start_time reader owner.pid) status.1 (ground arith),
          )
        ]
  ]

  classify_chain-active :
      (chain_name : Text) (comments : List Text) (o : Observation)
      → classify_chain iptables_path reader chain_name comments ≡ ok o
      → is_active o ≡ true
      → (comment : Text) × (comments ≡ comment ∷ []) × IsOwnedAlive reader comment
  unfolding classify_chain
  classify_chain-active chain_name [] o h a = absurd (ground arith)
  classify_chain-active chain_name (comment ∷ []) o h a =
      (comment, refl, classify-active chain_name comment o h a)
  classify_chain-active chain_name (comment ∷ other ∷ rest) o h a = absurd (ground arith)

  observe-All :
      (entries : List Entry) (names : List Text) (observations : List Observation)
      → observe iptables_path reader entries names ≡ ok observations
      → any_blocking observations ≡ false
      → All (IsAccounted entries) names
  unfolding observe any_blocking
  observe-All entries [] observations h k = tt
  observe-All entries (chain_name ∷ names) observations h k =
      let comments = markers_of chain_name entries in
      elim (Outcome-cases (classify_chain iptables_path reader chain_name comments)) [
        | inr (e, failed) ↦ absurd (ground arith)
        | inl (o, classified) ↦ elim (Outcome-cases (observe iptables_path reader entries names)) [
          | inr (e, failed) ↦ absurd (ground arith)
          | inl (rest, observed) ↦
              let same : observations ≡ o ∷ rest = ok-injective (ground arith) in
              let clear : any_blocking (o ∷ rest) ≡ false = ap any_blocking (sym same) ∙ k in
              (
                classify_chain-active chain_name comments o classified (ground arith),
                observe-All entries names rest observed (ground arith),
              )
        ]
      ]

  -- If the scan of the output of iptables-save succeeds and its report does not block, then every
  -- chain that a line declares under a reserved tcpcc name, and every chain with a rule that
  -- carries the tcpcc marker prefix, has exactly one such marker among all lines; that marker is
  -- well formed, and its process is running with the start time that the marker records.
  pub inspect_chains-AllChains :
      (raw : Text) (report : OwnershipReport)
      → inspect_chains iptables_path reader raw ≡ ok report
      → is_blocking report ≡ false
      → (entries : List Entry) × (read_lines (splitlines raw) ≡ ok entries)
        × AllChains (IsAccounted entries) entries
  unfolding inspect_chains is_blocking
  inspect_chains-AllChains raw report h k = elim (Outcome-cases (read_lines (splitlines raw))) [
    | inr (e, failed) ↦ absurd (ground arith)
    | inl (entries, read) ↦
        elim (Outcome-cases (observe iptables_path reader entries (chain_names entries))) [
          | inr (e, failed) ↦ absurd (ground arith)
          | inl (observations, observed) ↦ (
            entries,
            read,
            All-chain_names (IsAccounted entries) entries
                (observe-All entries (chain_names entries) observations observed (ground arith)),
          )
        ]
  ]
