-- ===== src/Service/Drain/Clock.antt =====
-- What a join does to the time and the bridges that are left.
use linux_tcp_cc.Base.{
  ℕ, ◌+◌, ◌-◌, ◌≤◌, ◌<◌, ◌≡◌, ◌∙◌, ap, Bool, true, false, [], ◌∷◌, length, Outcome, ok, raised,
  Bool-cases, Outcome-cases, inl, inr, operation_error, arith,
}
use mathlib.Core.Path.{subst}
use linux_tcp_cc.Base.Int.{ℤ, pos, eq_ℤ_iff}
use linux_tcp_cc.Control.Request.{ControlResponse}
use linux_tcp_cc.Control.Snapshots.{decode_bridge_result}
use linux_tcp_cc.Service.Runtime.{
  Hosted, Running, Event, Diagnostic, contains, minus_etimedout, op_bridge_join_result,
}
use linux_tcp_cc.Service.Bridges.{join_failed, join_done, joined, join_bridge_result}
use linux_tcp_cc.Service.Bridges.Joins.{
  IsJoined, join_bridge_result-IsJoined, validate-keeps, length-discard, length-discard_member,
}
use linux_tcp_cc.Service.Drain.{Closing, DrainEvent}

-- What the calls promise about the clock: it does not go back, and a join that is answered by
-- -ETIMEDOUT took time, since it waits for at least a millisecond.
pub record Contract {S : Type 0} (host : Hosted S) (closing : Closing S) : Type 0 where
  pub transact_forward :
      (handle : ℤ) (timeout_ms : ℕ) (s : S)
      → closing.clock s
        ≤ closing.clock
            (host.transact op_bridge_join_result handle timeout_ms 0 [] (pos 0 ∷ []) s).1
  pub timed_out :
      (handle : ℤ) (timeout_ms operation : ℕ) (s : S)
      → 1 ≤ timeout_ms
      → (host.transact op_bridge_join_result handle timeout_ms 0 [] (pos 0 ∷ []) s).0
        ≡ raised (operation_error operation minus_etimedout)
      → closing.clock s
        < closing.clock
            (host.transact op_bridge_join_result handle timeout_ms 0 [] (pos 0 ∷ []) s).1
  pub event_forward : (e : Event) (s : S) → closing.clock s ≤ closing.clock (host.event e s).1
  pub diagnostic_forward :
      (d : Diagnostic) (s : S) → closing.clock s ≤ closing.clock (host.diagnostic d s).1
  pub emit_forward : (e : DrainEvent) (s : S) → closing.clock s ≤ closing.clock (closing.emit e s).1

abbrev pub now : {S : Type 0} → Closing S → Running S → ℕ
now closing js = closing.clock js.1

-- What is left: time before the deadline, and bridges.
abbrev pub left : {S : Type 0} → Closing S → ℕ → Running S → ℕ
left closing deadline js = (deadline - now closing js) + length js.0.active_bridges

module _ {S : Type 0} (host : Hosted S) (closing : Closing S) (keeps : Contract host closing) where
  join_failed-forward :
      (handle status : ℤ) (js : Running S)
      → now closing js ≤ now closing (join_failed host handle status js).1
  unfolding join_failed
  join_failed-forward handle status js =
      grind (arith, keeps.event_forward, keeps.diagnostic_forward)

  join_done-forward :
      (handle : ℤ) (response : ControlResponse) (js : Running S)
      → now closing js ≤ now closing (join_done host handle response js).1
  unfolding join_done
  join_done-forward handle response js =
      elim (Outcome-cases (decode_bridge_result response.bytes true)) [
        | inr (e, bad) ↦ ground arith
        | inl (result, read) ↦
            let same = validate-keeps host result js in
            grind (arith, keeps.event_forward, keeps.diagnostic_forward)
      ]

  joined-forward :
      (handle : ℤ) (r : Outcome ControlResponse) (js : Running S)
      → now closing js ≤ now closing (joined host handle r js).1
  joined-forward handle (ok response) js = join_done-forward handle response js
  joined-forward handle (raised (operation_error operation status)) js =
      join_failed-forward handle status js
  joined-forward handle (raised e) js = omega arith

  pub join-forward :
      (handle : ℤ) (timeout_ms : ℕ) (js : Running S)
      → now closing js ≤ now closing (join_bridge_result host handle timeout_ms js).1
  unfolding join_bridge_result
  join-forward handle timeout_ms (run, s) =
      let r = host.transact op_bridge_join_result handle timeout_ms 0 [] (pos 0 ∷ []) s in
      omega
        (arith, keeps.transact_forward handle timeout_ms s, joined-forward handle r.0 (run, r.1))

  join_done-true :
      (handle : ℤ) (response : ControlResponse) (js : Running S)
      → (join_done host handle response js).0 ≡ ok false
      → ⊥
  unfolding join_done
  join_done-true handle response js h =
      elim (Outcome-cases (decode_bridge_result response.bytes true)) [
        | inr (e, bad) ↦ ground arith
        | inl (result, read) ↦ ground arith
      ]

  join_failed-false :
      (handle status : ℤ) (js : Running S)
      → (join_failed host handle status js).0 ≡ ok false
      → (status ≡ minus_etimedout) × ((join_failed host handle status js).1 ≡ js)
  unfolding join_failed
  join_failed-false handle status js h = ground (arith, eq_ℤ_iff status minus_etimedout)

  -- A join that returns false was answered by -ETIMEDOUT.
  joined-false :
      (handle : ℤ) (r : Outcome ControlResponse) (js : Running S)
      → (joined host handle r js).0 ≡ ok false
      → ((operation : ℕ) × (r ≡ raised (operation_error operation minus_etimedout)))
        × ((joined host handle r js).1 ≡ js)
  joined-false handle (ok response) js h = absurd (join_done-true handle response js h)
  joined-false handle (raised (operation_error operation status)) js h =
      let (same, kept) = join_failed-false handle status js h in
      ((operation, ap (λ n. raised (operation_error operation n)) same), kept)
  joined-false handle (raised e) js h = absurd (ground arith)

  join-timed_out :
      (handle : ℤ) (timeout_ms : ℕ) (js : Running S)
      → 1 ≤ timeout_ms
      → (join_bridge_result host handle timeout_ms js).0 ≡ ok false
      → now closing js < now closing (join_bridge_result host handle timeout_ms js).1
  unfolding join_bridge_result
  join-timed_out handle timeout_ms (run, s) h k =
      let r = host.transact op_bridge_join_result handle timeout_ms 0 [] (pos 0 ∷ []) s in
      let ((operation, answered), kept) = joined-false handle r.0 (run, r.1) k in
      let later = keeps.timed_out handle timeout_ms operation s h answered in
      omega (arith, later, ap (now closing) kept)

  pub join-left :
      (handle : ℤ) (timeout_ms deadline : ℕ) (js : Running S) (done : Bool) (ks : Running S)
      → join_bridge_result host handle timeout_ms js ≡ (ok done, ks)
      → left closing deadline ks ≤ left closing deadline js
  join-left handle timeout_ms deadline js done ks h =
      let forward : now closing js ≤ now closing ks =
        subst (λ r. now closing js ≤ now closing r.1) h (join-forward handle timeout_ms js) in
      let is =
        subst (IsJoined host handle js.0) h
          (join_bridge_result-IsJoined host handle timeout_ms js) in
      elim (Bool-cases done) [
        | inl joined_now ↦ ground (arith, length-discard handle js.0.active_bridges)
        | inr still ↦ ground arith
      ]

  pub join-left_member :
      (handle : ℤ) (timeout_ms deadline : ℕ) (js : Running S) (done : Bool) (ks : Running S)
      → join_bridge_result host handle timeout_ms js ≡ (ok done, ks)
      → 1 ≤ timeout_ms
      → now closing js < deadline
      → contains handle js.0.active_bridges ≡ true
      → left closing deadline ks < left closing deadline js
  join-left_member handle timeout_ms deadline js done ks h least early member =
      let forward : now closing js ≤ now closing ks =
        subst (λ r. now closing js ≤ now closing r.1) h (join-forward handle timeout_ms js) in
      let is =
        subst (IsJoined host handle js.0) h
          (join_bridge_result-IsJoined host handle timeout_ms js) in
      elim (Bool-cases done) [
        | inl joined_now ↦ ground (arith, length-discard_member handle js.0.active_bridges)
        | inr still ↦
            let later = join-timed_out handle timeout_ms js least (ap (λ r. r.0) h ∙ ap ok still) in
            let later' : now closing js < now closing ks =
              subst (λ r. now closing js < now closing r.1) h later in
            ground arith
      ]
