-- ===== src/Host/Signals.antt =====
-- `ShutdownSignals`. The table of handlers of the process, which `signal.signal` changes, is part
-- of a state `S`.
pub mod Laws
pub mod Block
use linux_tcp_cc.Base.{
  ℕ, Bool, true, false, not, ◌&&◌, ◌||◌, Option, none, some, List, [], ◌∷◌, ⊤, Error, value_error,
  runtime_error, Outcome, ok, raised, Action, pure, throw, lift, ◌>>=◌, ◌>>◌, raise_if, ◌==◌,
  if◌then◌else◌,
}
use linux_tcp_cc.Base.Checks.{require}
use mathlib.Core.List.{reverse}

-- `signal.signal`: it sets the handler of a signal and returns the one that was set before.
abbrev pub SignalModule : Type 0 → Type 0 → Type 0
SignalModule S H = ℕ → H → Action S H

-- `_event` is what `is_set` says; `previous` holds the newest entry first.
pub record ShutdownSignals (H : Type 0) : Type 0 where
  pub handled : List ℕ
  pub event : Bool
  pub requested_signal : Option ℕ
  pub previous : List (ℕ × H)
  pub installed : Bool

unfoldable pub is_member : ℕ → List ℕ → Bool
is_member n [] = false
is_member n (m ∷ rest) = n == m || is_member n rest

unfoldable pub is_unique : List ℕ → Bool
unfolding is_member
is_unique [] = true
is_unique (n ∷ rest) = not (is_member n rest) && is_unique rest

abbrev pub is_nothing : List ℕ → Bool
is_nothing [] = true
is_nothing (_ ∷ _) = false

-- `ShutdownSignals(handled)`
unfoldable pub shutdown_signals : {H : Type 0} → List ℕ → Outcome (ShutdownSignals H)
unfolding is_unique
shutdown_signals handled =
    if is_nothing handled || not (is_unique handled)
    then raised (value_error "handled signals must be a non-empty unique tuple")
    else ok (record {
      handled = handled;
      event = false;
      requested_signal = none;
      previous = [];
      installed = false;
    })

-- `request`: the first signal is kept.
unfoldable pub request : {H : Type 0} → ℕ → ShutdownSignals H → ShutdownSignals H
request signum o = record o {
  requested_signal = elim o.requested_signal [ none ↦ some signum | some first ↦ some first ];
  event = true;
}

-- `previous[signum]`; none is its KeyError.
unfoldable pub find_previous : {H : Type 0} → ℕ → List (ℕ × H) → Option H
find_previous n [] = none
find_previous n ((m, h) ∷ rest) = if n == m then some h else find_previous n rest

module _ {S H : Type 0} (signal : SignalModule S H) (own : H) where
  -- `for signum in …: signal.signal(signum, previous[signum])`
  unfoldable pub put_back : List ℕ → List (ℕ × H) → Action S ⊤
  unfolding find_previous
  put_back [] previous s = (ok tt, s)
  put_back (n ∷ rest) previous s = elim (find_previous n previous) [
    | none ↦ (raised (runtime_error "KeyError"), s)
    | some h ↦ (signal n h >>= λ _. put_back rest previous) s
  ]

  -- The loop of `__enter__` and its handler, with the signals that were installed, newest first.
  -- The first half of the state is `_previous`.
  unfoldable pub install : List ℕ → List ℕ → Action (List (ℕ × H) × S) ⊤
  unfolding put_back
  install [] installed (previous, s) = (ok tt, (previous, s))
  install (n ∷ rest) installed (previous, s) =
      let (r, t) = signal n own s in
      elim r [
        | ok before ↦ install rest (n ∷ installed) ((n, before) ∷ previous, t)
        | raised e ↦
            let (r', u) = put_back installed previous t in
            elim r' [ ok _ ↦ (raised e, ([], u)) | raised e' ↦ (raised e', (previous, u)) ]
      ]

  -- `__enter__`
  unfoldable pub enter : Action (ShutdownSignals H × S) ⊤
  unfolding install
  enter (o, s) = elim o.installed [
    | true ↦ (raised (runtime_error "shutdown signal handlers are already installed"), (o, s))
    | false ↦
        let (r, (previous, t)) = install o.handled [] (o.previous, s) in
        elim r [
          | ok _ ↦ (ok tt, (record o { previous = previous; installed = true }, t))
          | raised e ↦ (raised e, (record o { previous = previous }, t))
        ]
  ]

  -- `restore`
  unfoldable pub restore : Action (ShutdownSignals H × S) ⊤
  unfolding put_back
  restore (o, s) = elim o.installed [
    | false ↦ (ok tt, (o, s))
    | true ↦
        let (r, t) = put_back (reverse o.handled) o.previous s in
        elim r [
          | ok _ ↦ (ok tt, (record o { previous = []; installed = false }, t))
          | raised e ↦ (raised e, (o, t))
        ]
  ]
