-- ===== src/Host/Ownership.antt =====
-- The stale scan: how one marked table or chain is classified, and `inspect_nft_ownership` over
-- the ruleset that nft prints as JSON.
pub mod Laws
use linux_tcp_cc.Base.{
  ℕ, zero, suc, Bool, true, false, not, ◌&&◌, ◌||◌, Option, none, some, List, [], ◌∷◌, ◌++◌, Text,
  lit, Error, value_error, unicode_error, is_os_error, runtime_error, os_error, Outcome, ok, raised,
  ltb, ◌==◌, text_eq, String, if◌then◌else◌,
}
use linux_tcp_cc.Base.Checks.{◌>>=◌, ◌>>◌, require, or_raise}
use linux_tcp_cc.Host.Names.{starts_with, is_nft_table_name}
use linux_tcp_cc.Host.Config.{NftOwnership}
use linux_tcp_cc.Host.Marker.{parse_marker}
use linux_tcp_cc.Host.Process.{Reader, process_start_time}
use linux_tcp_cc.Host.Reports.{
  OwnershipStatus, active, stale, malformed, Observation, OwnershipReport,
}

-- `errno.ENOENT`, the FileNotFoundError of a process that is gone.
abbrev pub enoent : ℕ
enoent = 2

abbrev pub same_start : Bool → OwnershipStatus × Text
same_start true = (active, lit "owner pid and process start time match")
same_start false = (stale, lit "owner pid was reused by a different process")

abbrev pub unreadable : Outcome (OwnershipStatus × Text)
unreadable = ok (stale, lit "owner process identity is unreadable")

-- The `try`, `except` and `else` round `_process_start_time`. Other errors pass through.
unfoldable pub owner_status : ℕ → Outcome ℕ → Outcome (OwnershipStatus × Text)
unfolding is_os_error
owner_status expected (ok actual) = ok (same_start (actual == expected))
owner_status expected (raised (os_error errno)) = ok (
  stale,
  if errno == enoent
      then lit "owner process is absent"
      else lit "owner process identity is unreadable",
)
owner_status expected (raised (value_error tag)) = unreadable
owner_status expected (raised unicode_error) = unreadable
owner_status expected (raised e) = if is_os_error e then unreadable else raised e

abbrev pub malformed_detail : Text
malformed_detail = lit "unsupported or malformed tcpcc ownership marker"

-- A value that `json.loads` gives.
mutual
  pub data Json : Type 0 where
    null : Json
    bool : Bool → Json
    number : ℕ → Json
    str : Text → Json
    list : Items → Json
    dict : Fields → Json

  pub data Items : Type 0 where
    end : Items
    item : Json → Items → Items

  pub data Fields : Type 0 where
    none_left : Fields
    field : Text → Json → Fields → Fields

unfoldable pub find_field : Text → Fields → Option Json
find_field key none_left = none
find_field key (field name value rest) = elim (find_field key rest) [
  | some later ↦ some later
  | none ↦ if text_eq name key then some value else none
]

abbrev pub or_null : Option Json → Json
or_null none = null
or_null (some value) = value

-- `value.get(key)`: the last of equal keys counts, and None is given for a missing one.
unfoldable pub get : Text → Fields → Json
unfolding find_field
get key fields = or_null (find_field key fields)

module _ (family : Text) (reader : Reader) where
  -- A rule of this family with a marked comment: its table, and the comment.
  abbrev marked : Json → Json → Option (Json × Text)
  marked (str comment) table =
      if starts_with comment (lit "tcpcc.owner.") then some (table, comment) else none
  marked _ table = none

  abbrev family_matches : Json → Bool
  family_matches (str name) = text_eq name family
  family_matches _ = false

  abbrev marked_rule : Json → Option (Json × Text)
  marked_rule (dict rule) =
      if family_matches (get (lit "family") rule)
      then marked (get (lit "comment") rule) (get (lit "table") rule)
      else none
  marked_rule _ = none

  -- The four `continue`s of the loop.
  unfoldable pub marked_entry : Json → Option (Json × Text)
  unfolding get
  marked_entry (dict entry) = marked_rule (get (lit "rule") entry)
  marked_entry _ = none

  unfoldable pub malformed_observation : Json → Observation
  malformed_observation table = record {
    resource = elim table [ str name ↦ name | _ ↦ lit "malformed" ];
    status = malformed;
    owner_pid = none;
    owner_start_time = none;
    tun_name = none;
    detail = malformed_detail;
    remediation = elim table [
      | str name ↦
          if is_nft_table_name name
          then lit "inspect with: nft list table "
            ++ (family ++ (lit " " ++ name))
            ++ (lit "; after verifying ownership, remove with: nft delete table "
                ++ (family ++ (lit " " ++ name)))
          else lit "inspect the complete nftables ruleset manually"
      | _ ↦ lit "inspect the complete nftables ruleset manually"
    ];
  }

  abbrev pub observation : Text → NftOwnership → OwnershipStatus × Text → Observation
  observation name o (status, detail) = record {
    resource = name;
    status = status;
    owner_pid = some o.pid;
    owner_start_time = some o.start_time;
    tun_name = some o.tun_name;
    detail = detail;
    remediation = elim status [
      | stale ↦
          lit "verify the recorded owner is gone, then run: nft delete table "
          ++ (family ++ (lit " " ++ name))
      | _ ↦ []
    ];
  }

  abbrev classify_owned : Text → NftOwnership → Outcome Observation
  classify_owned name o = do
    status ← owner_status o.start_time (process_start_time reader o.pid)
    ok (observation name o status)

  abbrev classify_named : Text → Text → Outcome Observation
  classify_named name comment =
      let bad : Outcome Observation = ok (malformed_observation (str name)) in
      elim (parse_marker comment) [
        | none ↦ bad
        | some o ↦ if is_nft_table_name name then classify_owned name o else bad
      ]

  -- The body of the loop for a marked rule.
  unfoldable pub classify : Json → Text → Outcome Observation
  unfolding owner_status malformed_observation
  classify (str name) comment = classify_named name comment
  classify table comment = ok (malformed_observation table)

  unfoldable pub observe : Items → Outcome (List Observation)
  unfolding marked_entry classify
  observe end = ok []
  observe (item entry entries) =
      let rest = observe entries in
      elim (marked_entry entry) [
        | none ↦ rest
        | some (table, comment) ↦
            classify table comment >>= λ o. rest >>= λ observations. ok (o ∷ observations)
      ]

-- `a < b` on texts.
unfoldable pub text_lt : Text → Text → Bool
text_lt [] [] = false
text_lt [] (b ∷ t) = true
text_lt (a ∷ s) [] = false
text_lt (a ∷ s) (b ∷ t) = ltb a b || a == b && text_lt s t

-- `observations.sort(key=lambda item: item.table_name)`, which is stable.
unfoldable pub insert_observation : Observation → List Observation → List Observation
unfolding text_lt
insert_observation o [] = o ∷ []
insert_observation o (p ∷ rest) =
    if text_lt p.resource o.resource then p ∷ insert_observation o rest else o ∷ p ∷ rest

unfoldable pub sort_observations : List Observation → List Observation
unfolding insert_observation
sort_observations [] = []
sort_observations (o ∷ rest) = insert_observation o (sort_observations rest)

-- `document["nftables"]`, which must be a list. `loads` is `json.loads`, `none` its JSONDecodeError.
unfoldable pub ruleset_entries : (Text → Option Json) → Text → Outcome Items
unfolding get
ruleset_entries loads raw = elim (loads raw) [
  | some (dict document) ↦ elim (get (lit "nftables") document) [
    | list entries ↦ ok entries
    | _ ↦ raised (runtime_error "malformed ruleset JSON")
  ]
  | _ ↦ raised (runtime_error "malformed ruleset JSON")
]

-- `inspect_nft_ownership` on the text that the runner returned.
unfoldable pub inspect_nft_ownership :
    (Text → Option Json) → Text → Reader → Text → Outcome OwnershipReport
unfolding ruleset_entries observe sort_observations
inspect_nft_ownership loads family reader raw = do
  entries ← ruleset_entries loads raw
  observations ← observe family reader entries
  ok (record { observations = sort_observations observations })
