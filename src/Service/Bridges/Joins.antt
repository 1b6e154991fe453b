-- ===== src/Service/Bridges/Joins.antt =====
-- What a join does to the set of active bridges.
use linux_tcp_cc.Base.{
  ℕ, ◌≤◌, ◌<◌, ◌≡◌, refl, sym, Bool, true, false, List, [], ◌∷◌, length, Outcome, ok, raised,
  Action-cases, Bool-cases, Outcome-cases, inl, inr, operation_error, arith,
}
use mathlib.Core.Path.{subst}
use linux_tcp_cc.Base.Int.{ℤ, pos, eq_ℤ}
use linux_tcp_cc.Control.Request.{ControlResponse}
use linux_tcp_cc.Control.Snapshots.{BridgeResult, decode_bridge_result}
use linux_tcp_cc.Service.Runtime.{
  Hosted, Runtime, Running, discard, contains, minus_etimedout, op_bridge_join_result,
}
use linux_tcp_cc.Service.Bridges.{
  validate_bridge_contract, join_failed, join_done, joined, join_bridge_result,
}

pub length-discard :
    (handle : ℤ) (handles : List ℤ) → length (discard handle handles) ≤ length handles
unfolding discard
length-discard handle [] = omega arith
length-discard handle (h ∷ rest) = ground (arith, length-discard handle rest)

pub length-discard_member :
    (handle : ℤ) (handles : List ℤ)
    → contains handle handles ≡ true
    → length (discard handle handles) < length handles
unfolding discard contains
length-discard_member handle [] h = absurd (ground arith)
length-discard_member handle (h ∷ rest) m =
    ground (arith, length-discard handle rest, length-discard_member handle rest)

module _ {S : Type 0} (host : Hosted S) where
  -- The attributes after a join: without the handle, or as they were.
  abbrev pub after_join : ℤ → Bool → Runtime → Runtime
  after_join handle true run = record run { active_bridges = discard handle run.active_bridges }
  after_join handle false run = run

  abbrev pub IsJoined : ℤ → Runtime → Outcome Bool × Running S → Type 0
  IsJoined handle run (ok done, js) = js.0 ≡ after_join handle done run
  IsJoined handle run (raised e, js) = (b : Bool) × (js.0 ≡ after_join handle b run)

  join_failed-IsJoined :
      (handle status : ℤ) (js : Running S)
      → IsJoined handle js.0 (join_failed host handle status js)
  unfolding join_failed
  join_failed-IsJoined handle status (run, s) =
      let here = join_failed host handle status (run, s) in
      elim (Bool-cases (eq_ℤ status minus_etimedout)) [
        | inl timeout ↦
            let end : here ≡ (ok false, (run, s)) = ground arith in
            subst (IsJoined handle run) (sym end) refl
        | inr other ↦ elim (Action-cases here) [
          | inl (done, js, good) ↦ subst (IsJoined handle run) (sym good) (ground arith)
          | inr (e, js, bad) ↦ subst (IsJoined handle run) (sym bad) (true, ground arith)
        ]
      ]

  pub validate-keeps :
      (result : BridgeResult) (js : Running S) → (validate_bridge_contract result js).1 ≡ js
  unfolding validate_bridge_contract
  validate-keeps result js = ground arith

  join_done-IsJoined :
      (handle : ℤ) (response : ControlResponse) (js : Running S)
      → IsJoined handle js.0 (join_done host handle response js)
  unfolding join_done
  join_done-IsJoined handle response (run, s) =
      let js0 : Running S = (run, s) in
      let here = join_done host handle response js0 in
      elim (Outcome-cases (decode_bridge_result response.bytes true)) [
        | inr (e, bad) ↦
            let end : here ≡ (raised e, js0) = ground arith in
            subst (IsJoined handle run) (sym end) (false, refl)
        | inl (result, read) ↦ elim (Action-cases (validate_bridge_contract result js0)) [
          | inr (e, js, bad) ↦
              let end : here ≡ (raised e, js0) = ground (arith, validate-keeps result js0) in
              subst (IsJoined handle run) (sym end) (false, refl)
          | inl (_, js, valid) ↦ elim (Action-cases here) [
            | inl (done, ks, good) ↦
                subst (IsJoined handle run) (sym good) (ground (arith, validate-keeps result js0))
            | inr (e, ks, bad) ↦
                subst (IsJoined handle run) (sym bad)
                  (true, ground (arith, validate-keeps result js0))
          ]
        ]
      ]

  joined-IsJoined :
      (handle : ℤ) (r : Outcome ControlResponse) (js : Running S)
      → IsJoined handle js.0 (joined host handle r js)
  joined-IsJoined handle (ok response) js = join_done-IsJoined handle response js
  joined-IsJoined handle (raised (operation_error operation status)) js =
      join_failed-IsJoined handle status js
  joined-IsJoined handle (raised e) js = (false, refl)

  -- A join that returns true took the handle out of the set, one that returns false left the
  -- attributes alone, and one that raises did one of the two.
  pub join_bridge_result-IsJoined :
      (handle : ℤ) (timeout_ms : ℕ) (js : Running S)
      → IsJoined handle js.0 (join_bridge_result host handle timeout_ms js)
  unfolding join_bridge_result
  join_bridge_result-IsJoined handle timeout_ms (run, s) =
      let r = host.transact op_bridge_join_result handle timeout_ms 0 [] (pos 0 ∷ []) s in
      joined-IsJoined handle r.0 (run, r.1)
