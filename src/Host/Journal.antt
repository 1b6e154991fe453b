-- ===== src/Host/Journal.antt =====
-- `OwnershipJournal`: cleanup callbacks that are run once, the newest first. A callback acts on
-- the state `S` of the host; the journal itself is the other half of the state.
pub mod Laws
use linux_tcp_cc.Base.{
  Bool, true, false, List, [], ◌∷◌, ◌++◌, Text, ⊤, Error, Failures, nil, cons, Outcome, ok, raised,
  Action, ◌>>=◌, ◌>>◌, raise_if, value_error, runtime_error, cleanup_error,
}
use mathlib.Core.List.{reverse}

-- The label of a resource, and the callback that releases it.
abbrev pub Entry : Type 0 → Type 0
Entry S = Text × Action S ⊤

pub record OwnershipJournal (S : Type 0) : Type 0 where
  pub entries : List (Entry S)
  pub closed : Bool

abbrev pub Journaled : Type 0 → Type 0
Journaled S = OwnershipJournal S × S

abbrev pub is_empty : Text → Bool
is_empty [] = true
is_empty (_ ∷ _) = false

-- `failures.append(CleanupFailure(label, error))`, if the callback raised.
abbrev pub note_failure : Text → Outcome ⊤ → Failures → Failures
note_failure label (ok _) rest = rest
note_failure label (raised e) rest = cons label e rest

-- `if failures: raise CleanupError(tuple(failures))`
abbrev pub report : Failures → Outcome ⊤
report nil = ok tt
report (cons label e rest) = raised (cleanup_error (cons label e rest))

module _ {S : Type 0} where
  -- `OwnershipJournal()`
  abbrev pub new : OwnershipJournal S
  new = record { entries = []; closed = false }

  abbrev append_entry : Text → Action S ⊤ → Action (Journaled S) ⊤
  append_entry label callback (j, s) =
      (ok tt, (record j { entries = j.entries ++ ((label, callback) ∷ []) }, s))

  unfoldable pub defer : Text → Action S ⊤ → Action (Journaled S) ⊤
  defer label callback (j, s) =
      (do
        raise_if j.closed (runtime_error "cannot add a resource to a closed journal")
        raise_if (is_empty label) (value_error "cleanup label must not be empty")
        append_entry label callback)
        (j, s)

  -- The loop over `reversed(entries)`, which goes on after a failure.
  unfoldable pub run_entries : List (Entry S) → S → Failures × S
  run_entries [] s = (nil, s)
  run_entries ((label, callback) ∷ rest) s =
      let (r, t) = callback s in
      let (failures, u) = run_entries rest t in (note_failure label r failures, u)

  abbrev pub shut : OwnershipJournal S
  shut = record { entries = []; closed = true }

  abbrev close_open : List (Entry S) → S → Outcome ⊤ × Journaled S
  close_open entries s =
      let (failures, t) = run_entries (reverse entries) s in (report failures, (shut, t))

  unfoldable pub close : Action (Journaled S) ⊤
  close (j, s) = elim j.closed [ true ↦ (ok tt, (j, s)) | false ↦ close_open j.entries s ]
