-- ===== src/Host/Ownership/Laws.antt =====
-- The scan lets a start go on only if every marked table has a living owner.
use linux_tcp_cc.Base.{
  ℕ, ◌<◌, ◌≡◌, refl, sym, ap, ◌∙◌, true, false, not, ◌||◌, Option, none, some, List, [], ◌∷◌, Text,
  Outcome, ok, raised, ok-injective, os_error, value_error, ◌↔◌, inl, inr, Option-cases,
  Outcome-cases, arith, ⊤, ◌⊎◌, Bool-cases, ◌++◌, lit, text_eq_iff,
}
use mathlib.Core.Path.{subst}
use linux_tcp_cc.Host.Names.{is_nft_table_name, is_tun_pattern}
use linux_tcp_cc.Host.Config.{NftOwnership}
use linux_tcp_cc.Host.Marker.{marker, parse_marker}
use linux_tcp_cc.Host.Marker.Laws.{parse_marker-marker, strip_prefix-append}
use linux_tcp_cc.Host.Process.{Reader, process_start_time}
use linux_tcp_cc.Host.Reports.{
  OwnershipStatus, active, Observation, OwnershipReport, any_blocking, is_active, is_blocking,
}
use linux_tcp_cc.Host.Ownership.{
  owner_status, Json, str, dict, Fields, get, Items, end, item, marked_entry, classify, observe,
  insert_observation, sort_observations, ruleset_entries, inspect_nft_ownership,
}

any_blocking-insert :
    (o : Observation) (rest : List Observation)
    → any_blocking (insert_observation o rest) ≡ (not (is_active o) || any_blocking rest)
unfolding any_blocking insert_observation
any_blocking-insert o [] = refl
any_blocking-insert o (p ∷ rest) = ground (arith, any_blocking-insert o rest)

any_blocking-sort :
    (items : List Observation) → any_blocking (sort_observations items) ≡ any_blocking items
unfolding any_blocking sort_observations
any_blocking-sort [] = refl
any_blocking-sort (o ∷ rest) =
    any_blocking-insert o (sort_observations rest)
    ∙ ap (λ b. not (is_active o) || b) (any_blocking-sort rest)

-- The comment is a marker, and the process that it names runs with the start time that it
-- records.
abbrev pub IsOwnedAlive : Reader → Text → Type 0
IsOwnedAlive reader comment =
    (o : NftOwnership) × (parse_marker comment ≡ some o)
    × (process_start_time reader o.pid ≡ ok o.start_time)

pub owner_status-active :
    (o : NftOwnership) (start : Outcome ℕ) (detail : Text)
    → owner_status o.start_time start ≡ ok (active, detail)
    → start ≡ ok o.start_time
unfolding owner_status
owner_status-active o (ok actual) detail h = ground arith
owner_status-active o (raised (os_error errno)) detail h = ground arith
owner_status-active o (raised (value_error tag)) detail h = ground arith
owner_status-active o (raised e) detail h = cc

pub owner_status-alive :
    (o : NftOwnership) (start : Outcome ℕ) (status : OwnershipStatus) (detail : Text)
    → owner_status o.start_time start ≡ ok (status, detail)
    → start ≡ ok o.start_time
    → status ≡ active
unfolding owner_status
owner_status-alive o start status detail h alive = ground arith

module _ (family : Text) (reader : Reader) where
  -- The table has a valid name, and the comment names a living owner.
  abbrev pub IsOwnedTable : Json → Text → Type 0
  IsOwnedTable table comment =
      (name : Text) × (table ≡ str name)
      × (is_nft_table_name name ≡ true)
      × IsOwnedAlive reader comment

  -- A table is called active only for a marker whose process runs with the recorded start time.
  classify-active :
      (table : Json) (comment : Text) (o : Observation)
      → classify family reader table comment ≡ ok o
      → is_active o ≡ true
      → IsOwnedTable table comment
  unfolding classify
  classify-active (str name) comment o h a = elim (Option-cases (parse_marker comment)) [
    | inl bad ↦ absurd (ground arith)
    | inr (owner, parsed) ↦ elim (Bool-cases (is_nft_table_name name)) [
      | inr odd ↦ absurd (ground arith)
      | inl valid ↦
          elim (Outcome-cases
            (owner_status owner.start_time (process_start_time reader owner.pid))) [
              | inr (e, failed) ↦ absurd (ground arith)
              | inl (status, e) ↦ (
                name,
                refl,
                valid,
                (
                  owner,
                  parsed,
                  owner_status-active owner (process_start_time reader owner.pid) status.1
                      (ground arith),
                ),
              )
            ]
    ]
  ]
  classify-active table comment o h a = absurd (ground arith)

  -- A rule without a marker asks for nothing.
  abbrev pub IsOwnedIfMarked : Option (Json × Text) → Type 0
  IsOwnedIfMarked none = ⊤
  IsOwnedIfMarked (some (table, comment)) = IsOwnedTable table comment

  -- Every rule that the scan looks at has an owner.
  abbrev AllOwnedIfMarked : Items → Type 0
  AllOwnedIfMarked end = ⊤
  AllOwnedIfMarked (item entry entries) =
      IsOwnedIfMarked (marked_entry family reader entry) × AllOwnedIfMarked entries

  observe-AllOwnedIfMarked :
      (entries : Items) (observations : List Observation)
      → observe family reader entries ≡ ok observations
      → any_blocking observations ≡ false
      → AllOwnedIfMarked entries
  unfolding observe any_blocking
  observe-AllOwnedIfMarked end observations h k = tt
  observe-AllOwnedIfMarked (item entry entries) observations h k =
      elim (Option-cases (marked_entry family reader entry)) [
        | inl unmarked ↦
            (rw unmarked tt, observe-AllOwnedIfMarked entries observations (ground arith) k)
        | inr ((table, comment), marked) ↦
            elim (Outcome-cases (classify family reader table comment)) [
              | inr (e, failed) ↦ absurd (ground arith)
              | inl (o, classified) ↦ elim (Outcome-cases (observe family reader entries)) [
                | inr (e, failed) ↦ absurd (ground arith)
                | inl (rest, observed) ↦
                    let same : observations ≡ o ∷ rest = ok-injective (ground arith) in
                    let clear : any_blocking (o ∷ rest) ≡ false = ap any_blocking (sym same) ∙ k in
                    let alive = classify-active table comment o classified (ground arith) in
                    (rw marked alive, observe-AllOwnedIfMarked entries rest observed (ground arith))
              ]
            ]
      ]

  -- `entry` is one of the entries.
  abbrev pub IsEntry : Json → Items → Type 0
  IsEntry entry end = ⊥
  IsEntry entry (item other entries) = (entry ≡ other) ⊎ IsEntry entry entries

  -- The scan looks at such a rule.
  marked_entry-lem :
      (fields rule : Fields) (rest : Text)
      → get (lit "rule") fields ≡ dict rule
      → get (lit "family") rule ≡ str family
      → get (lit "comment") rule ≡ str (lit "tcpcc.owner." ++ rest)
      → marked_entry family reader (dict fields)
        ≡ some (get (lit "table") rule, lit "tcpcc.owner." ++ rest)
  unfolding marked_entry
  marked_entry-lem fields rule rest is_rule is_family is_comment =
      ground (arith, text_eq_iff family family, strip_prefix-append (lit "tcpcc.owner.") rest)

  AllOwnedIfMarked-owned :
      (entries : Items) (fields : Fields) (table : Json) (comment : Text)
      → AllOwnedIfMarked entries
      → IsEntry (dict fields) entries
      → marked_entry family reader (dict fields) ≡ some (table, comment)
      → IsOwnedTable table comment
  AllOwnedIfMarked-owned end fields table comment all is marked = elim is [ ]
  AllOwnedIfMarked-owned (item other entries) fields table comment all (inl same) marked =
      subst IsOwnedIfMarked (ap (marked_entry family reader) (sym same) ∙ marked) all.0
  AllOwnedIfMarked-owned (item other entries) fields table comment all (inr later) marked =
      AllOwnedIfMarked-owned entries fields table comment all.1 later marked

-- If the scan of the ruleset succeeds and its report does not block, then every rule of this family
-- in the ruleset that nft printed, if its comment begins with "tcpcc.owner.", stands in a table
-- with a valid name, and its comment is a well-formed marker, whose process is running with the
-- start time that the marker records.
pub inspect_nft_ownership-IsOwnedTable :
    (loads : Text → Option Json) (family : Text) (reader : Reader) (raw : Text)
    (report : OwnershipReport) (entries : Items) (fields rule : Fields) (rest : Text)
    → inspect_nft_ownership loads family reader raw ≡ ok report
    → is_blocking report ≡ false
    → ruleset_entries loads raw ≡ ok entries
    → IsEntry family reader (dict fields) entries
    → get (lit "rule") fields ≡ dict rule
    → get (lit "family") rule ≡ str family
    → get (lit "comment") rule ≡ str (lit "tcpcc.owner." ++ rest)
    → IsOwnedTable family reader (get (lit "table") rule) (lit "tcpcc.owner." ++ rest)
unfolding inspect_nft_ownership is_blocking
inspect_nft_ownership-IsOwnedTable loads family reader raw report entries fields rule rest h k read
      is is_rule is_family is_comment =
    elim (Outcome-cases (observe family reader entries)) [
      | inr (e, failed) ↦ absurd (ground arith)
      | inl (observations, observed) ↦
          let all =
            observe-AllOwnedIfMarked family reader entries observations observed
              (ground (arith, any_blocking-sort observations)) in
          AllOwnedIfMarked-owned family reader entries fields (get (lit "table") rule)
            (lit "tcpcc.owner." ++ rest) all is
            (marked_entry-lem family reader fields rule rest is_rule is_family is_comment)
    ]

-- The scan recognises the marker that this program writes: for a valid table name and a valid
-- identity, an observation that is returned names the identity, and it is active exactly if the
-- process that it names runs with the recorded start time.
pub classify-marker :
    (family : Text) (reader : Reader) (table : Text) (o : NftOwnership) (found : Observation)
    → is_nft_table_name table ≡ true
    → 0 < o.pid
    → 0 < o.start_time
    → is_tun_pattern o.tun_name ≡ true
    → classify family reader (str table) (marker o) ≡ ok found
    → (found.resource ≡ table)
      × (found.owner_pid ≡ some o.pid)
      × (found.owner_start_time ≡ some o.start_time)
      × (found.tun_name ≡ some o.tun_name)
      × ((found.status ≡ active) ↔ (process_start_time reader o.pid ≡ ok o.start_time))
unfolding classify
classify-marker family reader table o found valid p q name h =
    let parsed = parse_marker-marker o p q name in
    let start = process_start_time reader o.pid in
    elim (Outcome-cases (owner_status o.start_time start)) [
      | inr (e, failed) ↦ absurd (ground arith)
      | inl ((status, detail), e) ↦
          let state : found.status ≡ status = ground arith in
          (
            ground arith,
            ground arith,
            ground arith,
            ground arith,
            (
              λ a.
                  owner_status-active o start detail (e ∙ ap (λ x. ok (x, detail)) (sym state ∙ a)),
              λ alive. state ∙ owner_status-alive o start status detail e alive,
            ),
          )
    ]
