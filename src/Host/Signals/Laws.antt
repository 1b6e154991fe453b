-- ===== src/Host/Signals/Laws.antt =====
-- Handlers that were installed are put back.
use linux_tcp_cc.Base.{
  ℕ, ◌≡◌, refl, ◌∙◌, Bool, true, false, Bool-cases, some, List, [], ◌∷◌, Error, ok, raised,
  Action-cases, inl, inr, ◌==◌, arith,
}
use mathlib.Core.Path.{subst}
use linux_tcp_cc.Host.Signals.{SignalModule, is_member, find_previous, put_back}

-- What `signal.signal` promises about the table of handlers: it refuses a signal always or never,
-- and then leaves the table alone; otherwise it changes one entry and returns what was there.
pub record Contract {S H : Type 0} (table : S → ℕ → H) (accepts : ℕ → Bool)
    (signal : SignalModule S H) : Type 0 where
  pub refused :
      (n : ℕ) (h : H) (s t : S) (e : Error)
      → signal n h s ≡ (raised e, t)
      → (accepts n ≡ false) × ((m : ℕ) → table t m ≡ table s m)
  pub set :
      (n : ℕ) (h before : H) (s t : S)
      → signal n h s ≡ (ok before, t)
      → (accepts n ≡ true)
        × (before ≡ table s n)
        × (table t n ≡ h)
        × ((m : ℕ) → (m == n) ≡ false → table t m ≡ table s m)

module _ {S H : Type 0} (table : S → ℕ → H) (accepts : ℕ → Bool) (signal : SignalModule S H)
    (own : H) (keeps : Contract table accepts signal) where
  -- What is known of a signal, by whether it was installed: its old handler is recorded, or its
  -- handler is still the old one.
  unfoldable pub TrackedAt : Bool → ℕ → List (ℕ × H) → S → S → Type 0
  TrackedAt true m previous s0 s =
      (find_previous m previous ≡ some (table s0 m)) × (accepts m ≡ true)
  TrackedAt false m previous s0 s = table s m ≡ table s0 m

  unfoldable pub Tracked : List ℕ → List (ℕ × H) → S → S → Type 0
  Tracked installed previous s0 s = (m : ℕ) → TrackedAt (is_member m installed) m previous s0 s

  -- The newest installed signal is put back.
  Tracked-pop :
      (n : ℕ) (rest : List ℕ) (previous : List (ℕ × H)) (s0 s t : S) (before : H)
      → Tracked (n ∷ rest) previous s0 s
      → signal n (table s0 n) s ≡ (ok before, t)
      → Tracked rest previous s0 t
  unfolding Tracked TrackedAt is_member
  Tracked-pop n rest previous s0 s t before h e m =
      let set = keeps.set n (table s0 n) before s t e in
      let here = h m in
      elim (Bool-cases (m == n)) [
        | inl same ↦ elim (Bool-cases (is_member m rest)) [
          | inl again ↦ rw again (ground arith)
          | inr gone ↦ rw gone (ground arith)
        ]
        | inr other ↦
            let left = set.3 m other in
            elim (Bool-cases (is_member m rest)) [
              | inl again ↦ rw again (ground arith)
              | inr gone ↦ rw gone (ground arith)
            ]
      ]

  -- A new signal is installed.
  pub Tracked-push :
      (n : ℕ) (installed : List ℕ) (previous : List (ℕ × H)) (s0 s t : S) (before : H)
      → is_member n installed ≡ false
      → Tracked installed previous s0 s
      → signal n own s ≡ (ok before, t)
      → Tracked (n ∷ installed) ((n, before) ∷ previous) s0 t
  unfolding Tracked TrackedAt is_member find_previous
  Tracked-push n installed previous s0 s t before new h e m =
      let set = keeps.set n own before s t e in
      let here = h m in
      elim (Bool-cases (m == n)) [
        | inl same ↦
            let new' : is_member m installed ≡ false = ground arith in
            let was : table s m ≡ table s0 m = subst (λ b. TrackedAt b m previous s0 s) new' here in
            rw same (ground arith)
        | inr other ↦
            let left = set.3 m other in
            elim (Bool-cases (is_member m installed)) [
              | inl again ↦
                  let known = subst (λ b. TrackedAt b m previous s0 s) again here in
                  rw (other, again) (ground arith)
              | inr gone ↦
                  let was : table s m ≡ table s0 m =
                    subst (λ b. TrackedAt b m previous s0 s) gone here in
                  rw (other, gone) (left ∙ was)
            ]
      ]

  pub put_back_restores :
      (installed : List ℕ) (previous : List (ℕ × H)) (s0 s : S)
      → Tracked installed previous s0 s
      → ((put_back signal own installed previous s).0 ≡ ok tt)
        × ((m : ℕ) → table (put_back signal own installed previous s).1 m ≡ table s0 m)
  unfolding put_back Tracked TrackedAt is_member
  put_back_restores [] previous s0 s h = (refl, h)
  put_back_restores (n ∷ rest) previous s0 s h =
      let first : is_member n (n ∷ rest) ≡ true = ground arith in
      let known : TrackedAt true n previous s0 s =
        subst (λ b. TrackedAt b n previous s0 s) first (h n) in
      let here = put_back signal own (n ∷ rest) previous s in
      elim (Action-cases (signal n (table s0 n) s)) [
        | inr (e, t, bad) ↦ absurd (ground (arith, keeps.refused n (table s0 n) s t e bad))
        | inl (before, t, good) ↦
            let end : here ≡ put_back signal own rest previous t = ground arith in
            rw end (
              put_back_restores rest previous s0 t
                (Tracked-pop n rest previous s0 s t before h good))
      ]

  -- A change of nothing keeps what is known.
  pub Tracked-still :
      (installed : List ℕ) (previous : List (ℕ × H)) (s0 s t : S)
      → Tracked installed previous s0 s
      → ((m : ℕ) → table t m ≡ table s m)
      → Tracked installed previous s0 t
  unfolding Tracked TrackedAt
  Tracked-still installed previous s0 s t h same m =
      let here = h m in
      let left = same m in
      elim (Bool-cases (is_member m installed)) [
        | inl held ↦ rw held (subst (λ b. TrackedAt b m previous s0 s) held here)
        | inr gone ↦ rw gone (left ∙ subst (λ b. TrackedAt b m previous s0 s) gone here)
      ]

  pub Tracked-none : (previous : List (ℕ × H)) (s : S) → Tracked [] previous s s
  unfolding Tracked TrackedAt is_member
  Tracked-none previous s m = refl
