-- ===== src/Host/Journal/Laws.antt =====
-- The journal releases in reverse order, everything, once.
use linux_tcp_cc.Base.{
  ◌≡◌, Bool-cases, ◌⊎◌, inl, inr, nil, cons, raised, cleanup_error, false, List, [], ◌∷◌, ◌++◌,
  refl, ap, ◌∙◌, Outcome, Failures, Text, ⊤, ok, Action, arith,
}
use linux_tcp_cc.Host.Journal.{
  Entry, OwnershipJournal, Journaled, is_empty, defer, run_entries, note_failure, report, close,
  shut,
}
use mathlib.Core.List.{reverse, reverse-append}

report_ends :
    (f : Failures)
    → (report f ≡ ok tt) ⊎ ((failures : Failures) × (report f ≡ raised (cleanup_error failures)))
report_ends nil = inl refl
report_ends (cons label e rest) = inr (cons label e rest, refl)

module _ {S : Type 0} where
  pub run_entries-reverse_snoc :
      (label : Text) (callback : Action S ⊤) (entries : List (Entry S)) (s : S)
      → run_entries (reverse (entries ++ ((label, callback) ∷ []))) s ≡ (
          let (r, t) = callback s in
          let (failures, u) = run_entries (reverse entries) t in (note_failure label r failures, u))
  unfolding run_entries
  run_entries-reverse_snoc label callback entries s =
      rw (reverse-append entries ((label, callback) ∷ [])) refl

  -- On an open journal and a label that is not empty, `defer` adds the entry at the end.
  pub defer_lem :
      (label : Text) (callback : Action S ⊤) (entries : List (Entry S)) (s : S)
      → is_empty label ≡ false
      → defer label callback (record { entries = entries; closed = false }, s)
        ≡ (ok tt, (record { entries = entries ++ ((label, callback) ∷ []); closed = false }, s))
  unfolding defer
  defer_lem label callback entries s nonempty = ground arith

  -- Closing an open journal right after a resource was deferred under a label that is not empty
  -- runs that resource's callback first, then all the others as a close without it would have
  -- done, also where callbacks raise; the error lists the new failure in front of the others.
  pub close-defer :
      (label : Text) (callback : Action S ⊤) (entries : List (Entry S)) (s : S)
      → is_empty label ≡ false
      → let (r, t) = callback s in
        let (failures, u) = run_entries (reverse entries) t in
        let j : OwnershipJournal S = record { entries = entries; closed = false } in
        close (defer label callback (j, s)).1 ≡ (report (note_failure label r failures), (shut, u))
  unfolding close
  close-defer label callback entries s nonempty =
      ap (λ (r : Outcome ⊤ × Journaled S). close r.1) (defer_lem label callback entries s nonempty)
      ∙ ap (λ (r : Failures × S). (report r.0, (shut, r.1)))
          (run_entries-reverse_snoc label callback entries s)

  -- A close returns, or raises the CleanupError that lists what failed.
  pub close_ends :
      (js : Journaled S)
      → ((close js).0 ≡ ok tt)
        ⊎ ((failures : Failures) × ((close js).0 ≡ raised (cleanup_error failures)))
  unfolding close
  close_ends (j, s) = elim (Bool-cases j.closed) [
    | inl shut_before ↦ ground arith
    | inr open_still ↦ ground (arith, report_ends (run_entries (reverse j.entries) s).0)
  ]

  -- A second close runs nothing and raises nothing, whatever happened in the first.
  pub close-close : (js : Journaled S) → close (close js).1 ≡ (ok tt, (close js).1)
  unfolding close
  close-close (j, s) = ground arith
