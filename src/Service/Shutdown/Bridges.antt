-- ===== src/Service/Shutdown/Bridges.antt =====
-- The orderly shutdown forgets every bridge.
use linux_tcp_cc.Base.{
  ℕ, ◌≡◌, refl, ◌∙◌, ap, Bool, true, false, ◌&&◌, List, [], ◌∷◌, Failures, Outcome, ok, raised,
  Action, nil, pure, ◌>>=◌, Action-cases, Bool-cases, inl, inr, arith,
}
use linux_tcp_cc.Base.Int.{ℤ, eq_ℤ_iff}
use linux_tcp_cc.Service.Runtime.{Hosted, Runtime, Running, discard, contains}
use linux_tcp_cc.Service.Bridges.{join_bridge_result}
use linux_tcp_cc.Service.Bridges.Joins.{IsJoined, join_bridge_result-IsJoined}
use linux_tcp_cc.Service.Drain.{Closing, drain_bridges}
use linux_tcp_cc.Service.Shutdown.{
  Child, finish_kernel, close_listener, cancel_all, noted, require_stopped, bridge_shutdown_join_ms,
  join_last, join_all, orderly,
}

discard-discard :
    (handle : ℤ) (handles : List ℤ)
    → discard handle (discard handle handles) ≡ discard handle handles
unfolding discard
discard-discard handle [] = refl
discard-discard handle (h ∷ rest) = ground (arith, discard-discard handle rest)

discard_all : List ℤ → List ℤ → List ℤ
discard_all [] xs = xs
discard_all (handle ∷ rest) xs = discard_all rest (discard handle xs)

-- Every member of the second list is in the first.
covers : List ℤ → List ℤ → Bool
covers hs [] = true
covers hs (x ∷ xs) = contains x hs && covers hs xs

covers-discard :
    (handle : ℤ) (rest xs : List ℤ)
    → covers (handle ∷ rest) xs ≡ true
    → covers rest (discard handle xs) ≡ true
unfolding covers discard contains
covers-discard handle rest [] h = refl
covers-discard handle rest (x ∷ xs) h =
    ground (arith, covers-discard handle rest xs, eq_ℤ_iff x handle, eq_ℤ_iff handle x)

discard_all-covers : (hs xs : List ℤ) → covers hs xs ≡ true → discard_all hs xs ≡ []
unfolding discard_all covers contains
discard_all-covers [] [] h = refl
discard_all-covers [] (x ∷ xs) h = absurd (ground arith)
discard_all-covers (handle ∷ rest) xs h =
    discard_all-covers rest (discard handle xs) (covers-discard handle rest xs h)

covers_more : (h : ℤ) (hs xs : List ℤ) → covers hs xs ≡ true → covers (h ∷ hs) xs ≡ true
unfolding covers contains
covers_more h hs [] k = refl
covers_more h hs (x ∷ xs) k = ground (arith, covers_more h hs xs)

covers_self : (xs : List ℤ) → covers xs xs ≡ true
unfolding covers contains
covers_self [] = refl
covers_self (x ∷ xs) = ground (arith, covers_more x xs xs, covers_self xs, eq_ℤ_iff x x)

module _ {S : Type 0} (host : Hosted S) (closing : Closing S) (child : Child S) where
  require-keeps :
      (m : Action (Running S) Bool) (js : Running S)
      → ((m >>= require_stopped host closing child) js).1 ≡ (m js).1
  require-keeps m js = elim (Action-cases (m js)) [
    | inr (e, ks, bad) ↦ ground arith
    | inl (done, ks, good) ↦ elim (Bool-cases done) [
      | inl stopped ↦ ground arith
      | inr still ↦ ground arith
    ]
  ]

  joined-discard :
      (handle : ℤ) (run : Runtime) (r : Outcome Bool × Running S)
      → IsJoined host handle run r
      → discard handle r.1.0.active_bridges ≡ discard handle run.active_bridges
  joined-discard handle run (ok true, js) is =
      ground (arith, discard-discard handle run.active_bridges)
  joined-discard handle run (ok false, js) is = ground arith
  joined-discard handle run (raised e, js) (true, is) =
      ground (arith, discard-discard handle run.active_bridges)
  joined-discard handle run (raised e, js) (false, is) = ground arith

  join_last-discard :
      (handle : ℤ) (failures : Failures) (js : Running S)
      → (join_last host closing child handle (failures, js)).1.0.active_bridges
        ≡ discard handle js.0.active_bridges
  unfolding join_last
  join_last-discard handle failures js =
      let join = join_bridge_result host handle bridge_shutdown_join_ms in
      ap (λ ks. discard handle ks.0.active_bridges) (require-keeps join js)
      ∙ joined-discard handle js.0 (join js)
          (join_bridge_result-IsJoined host handle bridge_shutdown_join_ms js)

  join_all-discard_all :
      (handles : List ℤ) (fjs : Failures × Running S)
      → (join_all host closing child handles fjs).1.0.active_bridges
        ≡ discard_all handles fjs.1.0.active_bridges
  unfolding join_all discard_all
  join_all-discard_all [] fjs = refl
  join_all-discard_all (handle ∷ rest) (failures, js) =
      join_all-discard_all rest (join_last host closing child handle (failures, js))
      ∙ ap (discard_all rest) (join_last-discard handle failures js)

  pub join_all-nil :
      (fjs : Failures × Running S)
      → (join_all host closing child fjs.1.0.active_bridges fjs).1.0.active_bridges ≡ []
  join_all-nil fjs =
      join_all-discard_all fjs.1.0.active_bridges fjs
      ∙ discard_all-covers fjs.1.0.active_bridges fjs.1.0.active_bridges
          (covers_self fjs.1.0.active_bridges)

  finish_kernel-keeps :
      (fjs : Failures × Running S)
      → (noted host closing child (finish_kernel host closing child) fjs).1.0 ≡ fjs.1.0
  finish_kernel-keeps (failures, js) = ground arith

  -- The orderly branch leaves no bridge in the set, whatever it has to report.
  pub orderly-nil :
      (fuel : ℕ) (js : Running S) → (orderly host closing child fuel js).1.0.active_bridges ≡ []
  unfolding orderly
  orderly-nil fuel js =
      let drained =
        noted host closing child (drain_bridges host closing fuel >>= λ _. pure tt)
          (close_listener host closing child (nil, js)) in
      let cancelled = cancel_all host closing child drained.1.0.active_bridges drained in
      let joined = join_all host closing child cancelled.1.0.active_bridges cancelled in
      ap (λ (run : Runtime). run.active_bridges) (finish_kernel-keeps joined)
      ∙ join_all-nil cancelled
