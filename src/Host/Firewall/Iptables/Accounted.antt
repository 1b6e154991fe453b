-- ===== src/Host/Firewall/Iptables/Accounted.antt =====
-- The scan accounts for every chain that a line of iptables-save names.
use linux_tcp_cc.Base.{
  ◌≡◌, refl, sym, ap, ◌∙◌, false, List, [], ◌∷◌, Text, text_eq, text_eq_iff, ok, Outcome-cases,
  Bool-cases, inl, inr, ◌⊎◌, ok-injective, arith,
}
use mathlib.Core.Path.{subst}
use linux_tcp_cc.Host.Ownership.Laws.{IsOwnedAlive}
use linux_tcp_cc.Host.Process.{Reader}
use linux_tcp_cc.Host.Reports.{OwnershipReport, is_blocking}
use linux_tcp_cc.Host.Shlex.{splitlines}
use linux_tcp_cc.Host.Firewall.Iptables.Chains.{AllChains, IsAccounted, inspect_chains-AllChains}
use linux_tcp_cc.Host.Firewall.Iptables.Scan.{
  Entry, nothing, reserved, rule, line_entry, read_lines, markers_of, inspect_chains,
}
use linux_tcp_cc.Host.Firewall.Iptables.Owned.{
  IsMarked, IsDeclared, Markers, end, marked, unmarked, IsLine, line_entry-marked,
  line_entry-declared, line_entry-IsMarked,
}

-- The entry names the chain.
abbrev IsFor : Text → Entry → Type 0
IsFor chain nothing = ⊥
IsFor chain (reserved name) = name ≡ chain
IsFor chain (rule name comment) = name ≡ chain

AllChains-cons :
    (P : Text → Type 0) (entry : Entry) (entries : List Entry)
    → AllChains P (entry ∷ entries)
    → ((chain : Text) → IsFor chain entry → P chain) × AllChains P entries
AllChains-cons P nothing entries all = (λ chain names. elim names [ ], all)
AllChains-cons P (reserved name) entries all = (λ chain names. subst P names all.0, all.1)
AllChains-cons P (rule name comment) entries all = (λ chain names. subst P names all.0, all.1)

not-IsMarked :
    (line chain : Text) (entry : Entry)
    → line_entry line ≡ ok entry
    → ((comment : Text) → entry ≡ rule chain comment → ⊥)
    → ¬ ((comment : Text) × IsMarked line chain comment)
not-IsMarked line chain entry got differs (comment, m) =
    differs comment (ok-injective (sym got ∙ line_entry-marked line chain comment m))

entry-Markers :
    (chain line : Text) (lines : List Text) (entry : Entry) (entries : List Entry)
    → line_entry line ≡ ok entry
    → Markers chain lines (markers_of chain entries)
    → Markers chain (line ∷ lines) (markers_of chain (entry ∷ entries))
unfolding markers_of
entry-Markers chain line lines nothing entries got rest =
    unmarked (not-IsMarked line chain nothing got (λ comment same. cc)) rest
entry-Markers chain line lines (reserved name) entries got rest =
    unmarked (not-IsMarked line chain (reserved name) got (λ comment same. cc)) rest
entry-Markers chain line lines (rule name comment) entries got rest =
    elim (Bool-cases (text_eq chain name)) [
      | inl same ↦
          let is = (text_eq_iff chain name).0 same in
          let keeps : markers_of chain (rule name comment ∷ entries)
              ≡ comment ∷ markers_of chain entries =
            ground arith in
          rw keeps (
            marked
              (line_entry-IsMarked line chain comment
                (got ∙ ap (λ n. ok (rule n comment)) (sym is)))
              rest)
      | inr differ ↦
          let keeps : markers_of chain (rule name comment ∷ entries) ≡ markers_of chain entries =
            ground arith in
          rw keeps (
            unmarked
              (not-IsMarked line chain (rule name comment) got
                (λ other same. ground (arith, text_eq_iff chain name)))
              rest)
    ]

-- The markers that the scan keeps for a chain are those of all lines.
read_lines-Markers :
    (chain : Text) (lines : List Text) (entries : List Entry)
    → read_lines lines ≡ ok entries
    → Markers chain lines (markers_of chain entries)
unfolding read_lines markers_of
read_lines-Markers chain [] entries h =
    subst (λ es. Markers chain [] (markers_of chain es)) (ok-injective h) end
read_lines-Markers chain (line ∷ lines) entries h = elim (Outcome-cases (line_entry line)) [
  | inr (e, bad) ↦ absurd (ground arith)
  | inl (entry, got) ↦ elim (Outcome-cases (read_lines lines)) [
    | inr (e, bad) ↦ absurd (ground arith)
    | inl (more, read) ↦
        let same : entry ∷ more ≡ entries = ok-injective (ground arith) in
        subst (λ es. Markers chain (line ∷ lines) (markers_of chain es)) same
          (entry-Markers chain line lines entry more got (read_lines-Markers chain lines more read))
  ]
]

-- A line whose entry names the chain.
AllChains-at :
    (P : Text → Type 0) (line chain : Text) (lines : List Text) (entries : List Entry)
    (entry : Entry)
    → read_lines lines ≡ ok entries
    → IsLine line lines
    → line_entry line ≡ ok entry
    → IsFor chain entry
    → AllChains P entries
    → P chain
unfolding read_lines
AllChains-at P line chain [] entries entry h is got names all = elim is [ ]
AllChains-at P line chain (other ∷ lines) entries entry h is got names all =
    elim (Outcome-cases (line_entry other)) [
      | inr (e, bad) ↦ absurd (ground arith)
      | inl (first, read) ↦ elim (Outcome-cases (read_lines lines)) [
        | inr (e, bad) ↦ absurd (ground arith)
        | inl (more, rest) ↦
            let same : entries ≡ first ∷ more = ok-injective (ground arith) in
            let (here, later) = AllChains-cons P first more (subst (AllChains P) same all) in
            elim is [
              | inl this ↦
                  let agree : entry ≡ first = ok-injective (sym got ∙ ap line_entry this ∙ read) in
                  here chain (subst (IsFor chain) agree names)
              | inr there ↦ AllChains-at P line chain lines more entry rest there got names later
            ]
      ]
    ]

-- If the scan of the output of iptables-save succeeds and its report does not block, then for every
-- line that declares a chain under a reserved tcpcc name, or that appends a rule with a comment
-- beginning with "tcpcc.owner.", the chain that it names has exactly one such comment among all
-- lines; this is a well-formed marker, and its process is running with the start time that the
-- marker records.
pub inspect_chains-accounted :
    (iptables_path : Text) (reader : Reader) (raw : Text) (report : OwnershipReport)
    (line chain : Text)
    → inspect_chains iptables_path reader raw ≡ ok report
    → is_blocking report ≡ false
    → IsLine line (splitlines raw)
    → IsDeclared line chain ⊎ ((comment : Text) × IsMarked line chain comment)
    → (comment : Text) × Markers chain (splitlines raw) (comment ∷ []) × IsOwnedAlive reader comment
inspect_chains-accounted iptables_path reader raw report line chain h k is names =
    let (entries, read, all) = inspect_chains-AllChains iptables_path reader raw report h k in
    let accounted = IsAccounted iptables_path reader entries in
    let (comment, only, alive) = elim names as (λ _. accounted chain) [
      | inl declared ↦
          AllChains-at accounted line chain (splitlines raw) entries (reserved chain) read is
            (line_entry-declared line chain declared) refl all
      | inr (found, marks) ↦
          AllChains-at accounted line chain (splitlines raw) entries (rule chain found) read is
            (line_entry-marked line chain found marks) refl all
    ] in
    (
      comment,
      subst (Markers chain (splitlines raw)) only
          (read_lines-Markers chain (splitlines raw) entries read),
      alive,
    )
