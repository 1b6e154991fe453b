-- ===== src/Tests/Handlers.antt =====
-- A table of handlers that are numbers; signal 9 cannot be handled.
use linux_tcp_cc.Base.{
  ℕ, ◌≡◌, refl, sym, ap, ◌∙◌, Bool, true, false, Bool-cases, not, none, List, [], ◌∷◌, os_error, ok,
  raised, ◌==◌, inl, inr, if◌then◌else◌, arith,
}
use linux_tcp_cc.Host.Signals.{SignalModule, ShutdownSignals, is_unique, enter, restore}
use linux_tcp_cc.Host.Signals.Laws.{Contract}
use linux_tcp_cc.Host.Signals.Block.{requests, enter_restores, restore-enter}

abbrev Handlers : Type 0
Handlers = ℕ → ℕ

abbrev table : Handlers → ℕ → ℕ
table s = s

abbrev accepts : ℕ → Bool
accepts n = not (n == 9)

abbrev signal : SignalModule Handlers ℕ
signal n h s = elim (accepts n) [
  | true ↦ (ok (s n), λ m. if m == n then h else s m)
  | false ↦ (raised (os_error 22), s)
]

signal-Contract : Contract table accepts signal
signal-Contract = record {
  refused = λ n h s t e r. elim (Bool-cases (accepts n)) [
    | inl good ↦ absurd (ground arith)
    | inr bad ↦ let same : s ≡ t = ground arith in (bad, λ m. ap (λ (x : Handlers). x m) (sym same))
  ];
  set = λ n h before s t r. elim (Bool-cases (accepts n)) [
    | inr bad ↦ absurd (ground arith)
    | inl good ↦
        let same : (λ m. if m == n then h else s m) ≡ t = ground arith in
        (
          good,
          ground arith,
          ap (λ (x : Handlers). x n) (sym same) ∙ ground arith,
          λ m other. ap (λ (x : Handlers). x m) (sym same) ∙ rw other refl,
        )
  ];
}

abbrev old : Handlers
old n = n

abbrev object : List ℕ → ShutdownSignals ℕ
object handled = record {
  handled = handled;
  event = false;
  requested_signal = none;
  previous = [];
  installed = false;
}

refused : (enter signal 100 (object (2 ∷ 9 ∷ []), old)).0 ≡ raised (os_error 22)
unfolding enter
refused = refl

enter_restores_example :
    ((enter signal 100 (object (2 ∷ 9 ∷ []), old)).1.0.installed ≡ false)
    × ((m : ℕ) → table (enter signal 100 (object (2 ∷ 9 ∷ []), old)).1.1 m ≡ table old m)
unfolding is_unique
enter_restores_example =
    enter_restores table accepts signal 100 signal-Contract (object (2 ∷ 9 ∷ [])) old (os_error 22)
      refl refl refused

entered : (enter signal 100 (object (2 ∷ 15 ∷ []), old)).0 ≡ ok tt
unfolding enter
entered = refl

restore-enter_example :
    let (o, t) = (enter signal 100 (object (2 ∷ 15 ∷ []), old)).1 in
    let left = restore signal 100 (requests (15 ∷ 2 ∷ []) o, t) in
    (left.0 ≡ ok tt) × ((m : ℕ) → table left.1.1 m ≡ table old m)
unfolding is_unique
restore-enter_example =
    restore-enter table accepts signal 100 signal-Contract (object (2 ∷ 15 ∷ [])) old (15 ∷ 2 ∷ [])
      refl refl entered
