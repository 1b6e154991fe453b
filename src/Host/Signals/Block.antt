-- ===== src/Host/Signals/Block.antt =====
-- Entering the block and leaving it again.
use linux_tcp_cc.Base.{
  ℕ, ◌≡◌, refl, sym, ap, ◌∙◌, ◌++◌, append_assoc, append-nil, Bool, true, false, Bool-cases, List,
  [], ◌∷◌, Error, ok, raised, Action-cases, inl, inr, ◌==◌, arith,
}
use mathlib.Core.List.{reverse, reverse-append}
use mathlib.Core.Path.{subst}
use linux_tcp_cc.Host.Signals.{
  SignalModule, ShutdownSignals, is_member, is_unique, put_back, install, enter, restore, request,
}
use linux_tcp_cc.Host.Signals.Laws.{
  Contract, Tracked, Tracked-push, Tracked-still, Tracked-none, put_back_restores,
}

-- Requests that arrive one after the other.
unfoldable pub requests : {H : Type 0} → List ℕ → ShutdownSignals H → ShutdownSignals H
unfolding request
requests [] o = o
requests (n ∷ rest) o = requests rest (request n o)

module _ {S H : Type 0} (table : S → ℕ → H) (accepts : ℕ → Bool) (signal : SignalModule S H)
    (own : H) (keeps : Contract table accepts signal) where
  -- No signal that is still to be installed has been installed.
  Fresh : List ℕ → List ℕ → Type 0
  Fresh remaining installed = (m : ℕ) → is_member m remaining ≡ true → is_member m installed ≡ false

  Fresh-next :
      (n : ℕ) (rest installed : List ℕ)
      → is_unique (n ∷ rest) ≡ true
      → Fresh (n ∷ rest) installed
      → Fresh rest (n ∷ installed)
  unfolding Fresh is_member is_unique
  Fresh-next n rest installed u h m e =
      let old = h m in
      elim (Bool-cases (m == n)) [ inl same ↦ absurd (ground arith) | inr other ↦ ground arith ]

  Fresh-head :
      (n : ℕ) (rest installed : List ℕ) → Fresh (n ∷ rest) installed → is_member n installed ≡ false
  unfolding Fresh is_member
  Fresh-head n rest installed f = f n (ground arith)

  install_refused :
      (remaining installed : List ℕ) (previous : List (ℕ × H)) (s0 s : S) (e : Error)
      → is_unique remaining ≡ true
      → Fresh remaining installed
      → Tracked table accepts signal own keeps installed previous s0 s
      → (install signal own remaining installed (previous, s)).0 ≡ raised e
      → (m : ℕ) → table (install signal own remaining installed (previous, s)).1.1 m ≡ table s0 m
  unfolding install is_unique
  install_refused [] installed previous s0 s e u f h bad m = absurd (ground arith)
  install_refused (n ∷ rest) installed previous s0 s e u f h bad m =
      let here = install signal own (n ∷ rest) installed (previous, s) in
      elim (Action-cases (signal n own s)) [
        | inl (before, t, good) ↦
            let end : here ≡ install signal own rest (n ∷ installed) ((n, before) ∷ previous, t) =
              ground arith in
            let new = Fresh-head n rest installed f in
            let rest_unique : is_unique rest ≡ true = ground arith in
            rw end (
              install_refused rest (n ∷ installed) ((n, before) ∷ previous) s0 t e rest_unique
                (Fresh-next n rest installed u f)
                (Tracked-push table accepts signal own keeps n installed previous s0 s t before new
                  h good)
                (ap (λ r. r.0) (sym end) ∙ bad) m)
        | inr (e', t, refused) ↦
            let still =
              Tracked-still table accepts signal own keeps installed previous s0 s t h
                (keeps.refused n own s t e' refused).1 in
            let (done, back) =
              put_back_restores table accepts signal own keeps installed previous s0 t still in
            let end : here ≡ (raised e', ([], (put_back signal own installed previous t).1)) =
              ground arith in
            rw end (back m)
      ]

  -- The installed signals at the end, newest first.
  stack : List ℕ → List ℕ → List ℕ
  stack [] installed = installed
  stack (n ∷ rest) installed = stack rest (n ∷ installed)

  stack-reverse :
      (remaining installed : List ℕ) → stack remaining installed ≡ reverse remaining ++ installed
  unfolding stack
  stack-reverse [] installed = refl
  stack-reverse (n ∷ rest) installed =
      stack-reverse rest (n ∷ installed)
      ∙ sym (append_assoc (reverse rest) (n ∷ []) installed)
      ∙ ap (λ l. l ++ installed) (sym (reverse-append (n ∷ []) rest))

  install_done :
      (remaining installed : List ℕ) (previous : List (ℕ × H)) (s0 s : S)
      → is_unique remaining ≡ true
      → Fresh remaining installed
      → Tracked table accepts signal own keeps installed previous s0 s
      → (install signal own remaining installed (previous, s)).0 ≡ ok tt
      → let end = (install signal own remaining installed (previous, s)).1 in
        Tracked table accepts signal own keeps (stack remaining installed) end.0 s0 end.1
  unfolding install is_unique stack
  install_done [] installed previous s0 s u f h good = h
  install_done (n ∷ rest) installed previous s0 s u f h good =
      let here = install signal own (n ∷ rest) installed (previous, s) in
      elim (Action-cases (signal n own s)) [
        | inl (before, t, set) ↦
            let end : here ≡ install signal own rest (n ∷ installed) ((n, before) ∷ previous, t) =
              ground arith in
            let rest_unique : is_unique rest ≡ true = ground arith in
            rw end (
              install_done rest (n ∷ installed) ((n, before) ∷ previous) s0 t rest_unique
                (Fresh-next n rest installed u f)
                (Tracked-push table accepts signal own keeps n installed previous s0 s t before
                  (Fresh-head n rest installed f) h set)
                (ap (λ r. r.0) (sym end) ∙ good))
        | inr (e', t, refused) ↦
            let still =
              Tracked-still table accepts signal own keeps installed previous s0 s t h
                (keeps.refused n own s t e' refused).1 in
            let (done, back) =
              put_back_restores table accepts signal own keeps installed previous s0 t still in
            let end : here ≡ (raised e', ([], (put_back signal own installed previous t).1)) =
              ground arith in
            absurd (ground arith)
      ]

  nothing_in : (m : ℕ) → is_member m [] ≡ false
  unfolding is_member
  nothing_in m = refl

  -- For a table of handlers that keeps its contract, distinct signals and an object that is not
  -- installed: if entering the block raises because a handler cannot be installed, then every
  -- signal has the handler that it had before; and the object says that nothing is installed, as
  -- before.
  pub enter_restores :
      (o : ShutdownSignals H) (s : S) (e : Error)
      → o.installed ≡ false
      → is_unique o.handled ≡ true
      → (enter signal own (o, s)).0 ≡ raised e
      → ((enter signal own (o, s)).1.0.installed ≡ false)
        × ((m : ℕ) → table (enter signal own (o, s)).1.1 m ≡ table s m)
  unfolding enter Fresh
  enter_restores o s e fresh unique raises =
      elim (Action-cases (install signal own o.handled [] (o.previous, s))) [
        | inl (_, t, good) ↦ absurd (ground arith)
        | inr (e', t, bad) ↦
            let back =
              install_refused o.handled [] o.previous s s e' unique (λ m _. nothing_in m)
                (Tracked-none table accepts signal own keeps o.previous s) (ap (λ r. r.0) bad) in
            let same : (enter signal own (o, s)).1.1 ≡ t.1 = ground arith in
            let kept : (enter signal own (o, s)).1.0.installed ≡ false = ground arith in
            (kept, λ m. ap (λ x. table x m) same ∙ ap (λ r. table r.1.1 m) (sym bad) ∙ back m)
      ]

  requests_keep :
      (signums : List ℕ) (o : ShutdownSignals H)
      → ((requests signums o).installed ≡ o.installed)
        × ((requests signums o).handled ≡ o.handled)
        × ((requests signums o).previous ≡ o.previous)
  unfolding requests request
  requests_keep [] o = (refl, refl, refl)
  requests_keep (n ∷ rest) o = requests_keep rest (request n o)

  restored :
      (o : ShutdownSignals H) (t : S)
      → o.installed ≡ true
      → (put_back signal own (reverse o.handled) o.previous t).0 ≡ ok tt
      → ((restore signal own (o, t)).0 ≡ ok tt)
        × ((restore signal own (o, t)).1.1
            ≡ (put_back signal own (reverse o.handled) o.previous t).1)
  unfolding restore
  restored o t h done = (ground arith, ground arith)

  -- For a table of handlers that keeps its contract, distinct signals and an object that is not
  -- installed: if entering the block succeeds, then restoring right after it, or after any number
  -- of requests, succeeds too, and every signal has the handler again that it had before.
  pub restore-enter :
      (o : ShutdownSignals H) (s : S) (signums : List ℕ)
      → o.installed ≡ false
      → is_unique o.handled ≡ true
      → (enter signal own (o, s)).0 ≡ ok tt
      → let (entered, t) = (enter signal own (o, s)).1 in
        let left = restore signal own (requests signums entered, t) in
        (left.0 ≡ ok tt) × ((m : ℕ) → table left.1.1 m ≡ table s m)
  unfolding enter Fresh
  restore-enter o s signums fresh unique entered =
      elim (Action-cases (install signal own o.handled [] (o.previous, s))) [
        | inr (e', t, bad) ↦ absurd (ground arith)
        | inl (_, (previous, t), good) ↦
            let tracked =
              install_done o.handled [] o.previous s s unique (λ m _. nothing_in m)
                (Tracked-none table accepts signal own keeps o.previous s) (ap (λ r. r.0) good) in
            let tracked' : Tracked table accepts signal own keeps (stack o.handled []) previous s
                t =
              subst (λ r. Tracked table accepts signal own keeps (stack o.handled []) r.1.0 s r.1.1)
                good tracked in
            let all : stack o.handled [] ≡ reverse o.handled =
              stack-reverse o.handled [] ∙ append-nil (reverse o.handled) in
            let (done, back) =
              put_back_restores table accepts signal own keeps (reverse o.handled) previous s t
                (subst (λ l. Tracked table accepts signal own keeps l previous s t) all tracked') in
            let after : ShutdownSignals H = record o { previous = previous; installed = true } in
            let end : enter signal own (o, s) ≡ (ok tt, (after, t)) = ground arith in
            let (kept1, kept2, kept3) = requests_keep signums after in
            let final = restored (requests signums after) t kept1 (rw (kept2, kept3) done) in
            rw end (final.0, λ m. ap (λ x. table x m) final.1 ∙ rw (kept2, kept3) (back m))
      ]
