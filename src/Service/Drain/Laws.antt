-- ===== src/Service/Drain/Laws.antt =====
-- The grace period ends by itself.
use linux_tcp_cc.Base.{
  ℕ, zero, suc, ◌+◌, ◌-◌, ◌≤◌, ◌<◌, ◌≡◌, ◌⊎◌, refl, sym, ◌∙◌, ap, Bool, true, false, List, [], ◌∷◌,
  length, Outcome, ok, raised, Action-cases, Bool-cases, inl, inr, ⊤, arith, leb, leb→le, ◌==◌,
  ==_iff,
}
use mathlib.Core.Path.{subst}
use linux_tcp_cc.Base.Int.{ℤ, eq_ℤ_iff}
use linux_tcp_cc.Service.Runtime.{Hosted, Running, contains}
use linux_tcp_cc.Service.Bridges.{join_bridge_result}
use linux_tcp_cc.Service.Drain.{
  Closing, draining, drain_timeout, grace_expired, slice_ms, drain_round, drain_loop, expired,
  drain_bridges,
}
use linux_tcp_cc.Service.Drain.Clock.{Contract, now, left, join-left, join-left_member}

List-cases {ℓ} :
    {A : Type ℓ} (xs : List A) → (xs ≡ []) ⊎ ((x : A) × (rest : List A) × (xs ≡ x ∷ rest))
List-cases [] = inl refl
List-cases (x ∷ rest) = inr (x, rest, refl)

module _ {S : Type 0} (host : Hosted S) (closing : Closing S) (keeps : Contract host closing) where
  slice_ms_pos : (remaining : ℕ) → 1 ≤ slice_ms remaining
  slice_ms_pos remaining = ground arith

  drain_round-left :
      (deadline : ℕ) (handles : List ℤ) (js ks : Running S)
      → drain_round host closing deadline handles js ≡ (ok tt, ks)
      → left closing deadline ks ≤ left closing deadline js
  unfolding drain_round
  drain_round-left deadline [] js ks h =
      let same : js ≡ ks = ap (λ r. r.1) h in omega (arith, ap (left closing deadline) same)
  drain_round-left deadline (handle ∷ rest) js ks h =
      let ms = slice_ms (deadline - now closing js) in
      elim (Bool-cases (leb deadline (now closing js))) [
        | inl late ↦
            let same : js ≡ ks = ground arith in omega (arith, ap (left closing deadline) same)
        | inr early ↦ elim (Action-cases (join_bridge_result host handle ms js)) [
          | inr (e, ls, bad) ↦ absurd (ground arith)
          | inl (done, ls, good) ↦
              let after : drain_round host closing deadline rest ls ≡ (ok tt, ks) = ground arith in
              omega (
                arith,
                join-left host closing keeps handle ms deadline js done ls good,
                drain_round-left deadline rest ls ks after,
              )
        ]
      ]

  drain_round-left_member :
      (deadline : ℕ) (handle : ℤ) (rest : List ℤ) (js ks : Running S)
      → drain_round host closing deadline (handle ∷ rest) js ≡ (ok tt, ks)
      → contains handle js.0.active_bridges ≡ true
      → (deadline ≤ now closing ks) ⊎ (left closing deadline ks < left closing deadline js)
  unfolding drain_round
  drain_round-left_member deadline handle rest js ks h member =
      let ms = slice_ms (deadline - now closing js) in
      elim (Bool-cases (leb deadline (now closing js))) [
        | inl late ↦
            let same : js ≡ ks = ground arith in
            inl (omega (arith, leb→le deadline (now closing js) late, ap (now closing) same))
        | inr early ↦ elim (Action-cases (join_bridge_result host handle ms js)) [
          | inr (e, ls, bad) ↦ absurd (ground arith)
          | inl (done, ls, good) ↦
              let after : drain_round host closing deadline rest ls ≡ (ok tt, ks) = ground arith in
              let before : now closing js < deadline = ground arith in
              inr (
                omega (
                  arith,
                  join-left_member host closing keeps handle ms deadline js done ls good
                      (slice_ms_pos (deadline - now closing js)) before member,
                  drain_round-left deadline rest ls ks after,
                ))
        ]
      ]

  contains_head : (handle : ℤ) (rest : List ℤ) → contains handle (handle ∷ rest) ≡ true
  unfolding contains
  contains_head handle rest = ground (arith, eq_ℤ_iff handle handle)

  closer :
      (deadline : ℕ) (handle : ℤ) (rest : List ℤ) (js ks : Running S)
      → drain_round host closing deadline (handle ∷ rest) js ≡ (ok tt, ks)
      → js.0.active_bridges ≡ handle ∷ rest
      → leb deadline (now closing ks) ≡ false
      → left closing deadline ks < left closing deadline js
  closer deadline handle rest js ks good some_left early =
      let member = ap (contains handle) some_left ∙ contains_head handle rest in
      elim (drain_round-left_member deadline handle rest js ks good member) [
        | inl late ↦ absurd (ground arith)
        | inr less ↦ less
      ]

  -- A drain that returns has joined every bridge or has used up its time; it does not run out of
  -- fuel.
  abbrev pub IsDrained : ℕ → Outcome Bool × Running S → Type 0
  IsDrained deadline (ok true, js) = (js.0.active_bridges ≡ []) ⊎ (deadline ≤ now closing js)
  IsDrained deadline (ok false, js) = ⊥
  IsDrained deadline (raised e, js) = ⊤

  drain_loop-IsDrained :
      (fuel deadline : ℕ) (js : Running S)
      → left closing deadline js < fuel
      → IsDrained deadline (drain_loop host closing fuel deadline js)
  unfolding drain_loop
  drain_loop-IsDrained zero deadline js h = elim h [ ]
  drain_loop-IsDrained (suc fuel) deadline js h =
      let here = drain_loop host closing (suc fuel) deadline js in
      elim (List-cases js.0.active_bridges) [
        | inl none_left ↦
            let end : here ≡ (ok true, js) = ground arith in
            subst (IsDrained deadline) (sym end) (inl none_left)
        | inr (handle, rest, some_left) ↦
            elim (Action-cases (drain_round host closing deadline (handle ∷ rest) js)) [
              | inr (e, ks, bad) ↦
                  let end : here ≡ (raised e, ks) = ground arith in
                  subst (IsDrained deadline) (sym end) tt
              | inl (_, ks, good) ↦ elim (Bool-cases (leb deadline (now closing ks))) [
                | inl late ↦
                    let end : here ≡ (ok true, ks) = ground arith in
                    subst (IsDrained deadline) (sym end)
                      (inr (leb→le deadline (now closing ks) late))
                | inr early ↦
                    let end : here ≡ drain_loop host closing fuel deadline ks = ground arith in
                    let less : left closing deadline ks < left closing deadline js =
                      closer deadline handle rest js ks good some_left early in
                    subst (IsDrained deadline) (sym end)
                      (drain_loop-IsDrained fuel deadline ks (omega arith))
              ]
            ]
      ]

  -- How the whole drain ended, which began at `start`.
  abbrev pub IsSettled : ℕ → Outcome Bool × Running S → Type 0
  IsSettled start (ok true, js) =
      (js.0.active_bridges ≡ []) ⊎ (start + closing.grace ≤ now closing js)
  IsSettled start (ok false, js) = ⊥
  IsSettled start (raised e, js) = ⊤

  expired-forward :
      (start : ℕ) (ended : Bool) (js : Running S)
      → IsDrained (start + closing.grace) (ok ended, js)
      → IsSettled start (expired host closing ended js)
  unfolding expired
  expired-forward start false js h = absurd h
  expired-forward start true (run, s) h =
      let js : Running S = (run, s) in
      let here = expired host closing true js in
      elim (List-cases run.active_bridges) [
        | inl none_left ↦
            let end : here ≡ (ok true, js) = ground arith in
            subst (IsSettled start) (sym end) (inl none_left)
        | inr (handle, rest, some_left) ↦
            let count = length (handle ∷ rest) in
            let late : start + closing.grace ≤ closing.clock s = elim h [
              | inl none_left ↦ absurd (ground arith)
              | inr passed ↦ passed
            ] in
            let t = (closing.emit (drain_timeout count) s).1 in
            elim (Action-cases here) [
              | inr (e, ks, bad) ↦ subst (IsSettled start) (sym bad) tt
              | inl (done, ks, good) ↦
                  let result : (done ≡ true) × (start + closing.grace ≤ now closing ks) = ground (
                    arith,
                    keeps.emit_forward (drain_timeout count) s,
                    keeps.emit_forward (grace_expired count) t,
                  ) in
                  let end : here ≡ (ok true, ks) = good ∙ ap (λ b. (ok b, ks)) result.0 in
                  subst (IsSettled start) (sym end) (inr result.1)
            ]
      ]

  IsSettled-earlier :
      (start earlier : ℕ) (r : Outcome Bool × Running S)
      → earlier ≤ start
      → IsSettled start r
      → IsSettled earlier r
  IsSettled-earlier start earlier (ok true, js) h settled = elim settled [
    | inl none_left ↦ inl none_left
    | inr passed ↦ inr (omega arith)
  ]
  IsSettled-earlier start earlier (ok false, js) h settled = settled
  IsSettled-earlier start earlier (raised e, js) h settled = tt

  -- The shutdown grace period ends. For calls that never turn the clock back, and a hosted side
  -- that lets time pass before it answers a join with -ETIMEDOUT: with fuel above the number of
  -- bridges plus the grace period in microseconds, `_drain_bridges` does not run out of fuel, and
  -- unless it raises, no bridge is left or the grace period, if there is one, has passed.
  pub drain_bridges-IsSettled :
      (fuel : ℕ) (js : Running S)
      → length js.0.active_bridges + closing.grace < fuel
      → IsSettled (now closing js) (drain_bridges host closing fuel js)
  unfolding drain_bridges
  drain_bridges-IsSettled fuel (run, s) h =
      let js : Running S = (run, s) in
      let here = drain_bridges host closing fuel js in
      elim (List-cases run.active_bridges) [
        | inl none_left ↦
            let end : here ≡ (ok true, js) = ground arith in
            subst (IsSettled (now closing js)) (sym end) (inl none_left)
        | inr (handle, rest, some_left) ↦
            let count = length (handle ∷ rest) in
            elim (Action-cases (closing.emit (draining count) s)) [
              | inr (e, t, bad) ↦
                  let end : here ≡ (raised e, (run, t)) = ground arith in
                  subst (IsSettled (now closing js)) (sym end) tt
              | inl (_, t, told) ↦
                  let later : closing.clock s ≤ closing.clock t =
                    ground (arith, keeps.emit_forward (draining count) s) in
                  elim (Bool-cases (closing.grace == 0)) [
                    | inl no_grace ↦
                        let end : here ≡ (ok true, (run, t)) = ground arith in
                        subst (IsSettled (now closing js)) (sym end)
                          (inr (ground (arith, ==_iff closing.grace 0)))
                    | inr waits ↦
                        let deadline = closing.clock t + closing.grace in
                        let drained = drain_loop-IsDrained fuel deadline (run, t) (omega arith) in
                        elim (Action-cases (drain_loop host closing fuel deadline (run, t))) [
                          | inr (e, ks, bad) ↦
                              let end : here ≡ (raised e, ks) = ground arith in
                              subst (IsSettled (now closing js)) (sym end) tt
                          | inl (ended, ks, good) ↦
                              let end : here ≡ expired host closing ended ks = ground arith in
                              let settled =
                                expired-forward (closing.clock t) ended ks
                                  (subst (IsDrained deadline) good drained) in
                              subst (IsSettled (now closing js)) (sym end) (
                                IsSettled-earlier (closing.clock t) (now closing js)
                                  (expired host closing ended ks) later settled)
                        ]
                  ]
            ]
      ]
