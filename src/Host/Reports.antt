-- ===== src/Host/Reports.antt =====
-- The reports that are collected before anything is acquired: `CheckResult`, `PreflightReport`,
-- and the observations and reports of ownership of both kinds of firewall.
use linux_tcp_cc.Base.{ℕ, Bool, true, false, not, ◌&&◌, ◌||◌, List, [], ◌∷◌, Text, Option}

pub data Status : Type 0 where
  pass warn fail : Status

pub data Severity : Type 0 where
  advisory required : Severity

pub record CheckResult : Type 0 where
  pub check_id : Text
  pub status : Status
  pub severity : Severity
  pub observed : Text
  pub expected : Text
  pub remediation : Text

pub record PreflightReport : Type 0 where
  pub requested_cc : Text
  pub checks : List CheckResult

abbrev pub has_failed : CheckResult → Bool
has_failed check = elim check.status [ fail ↦ true | _ ↦ false ]

-- `all(check.status != "fail" for check in self.checks)`
unfoldable pub none_failed : List CheckResult → Bool
none_failed [] = true
none_failed (check ∷ checks) = not (has_failed check) && none_failed checks

-- `PreflightReport.ok`
unfoldable pub is_ok : PreflightReport → Bool
unfolding none_failed
is_ok report = none_failed report.checks

-- The ids that `HostPreflightError` names.
unfoldable pub failed_ids : List CheckResult → List Text
failed_ids [] = []
failed_ids (check ∷ checks) = elim (has_failed check) [
  | true ↦ check.check_id ∷ failed_ids checks
  | false ↦ failed_ids checks
]

pub data OwnershipStatus : Type 0 where
  active stale malformed : OwnershipStatus

-- `NftOwnershipObservation` and `IptablesOwnershipObservation`, whose fields agree but for the
-- word for the table or chain.
pub record Observation : Type 0 where
  pub resource : Text
  pub status : OwnershipStatus
  pub owner_pid : Option ℕ
  pub owner_start_time : Option ℕ
  pub tun_name : Option Text
  pub detail : Text
  pub remediation : Text

pub record OwnershipReport : Type 0 where
  pub observations : List Observation

abbrev pub is_active : Observation → Bool
is_active item = elim item.status [ active ↦ true | _ ↦ false ]

-- `any(item.status != "active" for item in self.observations)`
unfoldable pub any_blocking : List Observation → Bool
any_blocking [] = false
any_blocking (item ∷ items) = not (is_active item) || any_blocking items

-- `NftOwnershipReport.blocking` and `IptablesOwnershipReport.blocking`
unfoldable pub is_blocking : OwnershipReport → Bool
unfolding any_blocking
is_blocking report = any_blocking report.observations

-- The resources that `StaleOwnershipError` names.
unfoldable pub blocked_names : List Observation → List Text
blocked_names [] = []
blocked_names (item ∷ items) = elim (is_active item) [
  | true ↦ blocked_names items
  | false ↦ item.resource ∷ blocked_names items
]
