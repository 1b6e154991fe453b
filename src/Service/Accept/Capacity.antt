-- ===== src/Service/Accept/Capacity.antt =====
-- The admission limit, and the loop's end.
use linux_tcp_cc.Base.{
  ℕ, zero, suc, ◌+◌, ◌≤◌, ◌≡◌, ◌≢◌, refl, sym, ◌∙◌, ap, true, Option, none, some, List, [], ◌∷◌,
  length, Outcome, ok, raised, Action-cases, Bool-cases, inl, inr, operation_error, arith,
}
use mathlib.Core.Path.{subst}
use linux_tcp_cc.Base.Int.{ℤ, pos, leb_ℤ}
use linux_tcp_cc.Control.Request.{ControlResponse}
use linux_tcp_cc.Service.Runtime.{
  Hosted, Runtime, Running, RuntimeConfig, add, verify_cc, op_bridge_start,
}
use linux_tcp_cc.Service.Accept.{
  bridged, settle, has_room, request_bridge, start_bridge, announce, serve_accepted,
  accept_nonblock, accept_loop,
}

length-add : (handle : ℤ) (handles : List ℤ) → length (add handle handles) ≤ length handles + 1
unfolding add
length-add handle handles = ground arith

module _ {S : Type 0} (host : Hosted S) (config : RuntimeConfig) where
  -- No more bridges than the admission limit, where there is one.
  abbrev IsWithinLimit : Runtime → Type 0
  IsWithinLimit run =
      config.max_connections ≢ 0 → length run.active_bridges ≤ config.max_connections

  -- Both leave the other attributes alone, and add at most one bridge.
  abbrev AddsOne : Running S → Running S → Type 0
  AddsOne js js' =
      (js'.0.listener_handle ≡ js.0.listener_handle)
      × (length js'.0.active_bridges ≤ length js.0.active_bridges + 1)

  bridged-AddsOne :
      (r : Outcome ControlResponse) (js : Running S) → AddsOne js (bridged host config r js).1
  bridged-AddsOne (raised (operation_error operation status)) js = (ground arith, ground arith)
  bridged-AddsOne (raised e) js = (refl, omega arith)
  bridged-AddsOne (ok response) js =
      (ground arith, ground (arith, length-add response.handle js.0.active_bridges))

  start_bridge-AddsOne :
      (accepted : ℤ) (js : Running S) → AddsOne js (start_bridge host config accepted js).1
  unfolding start_bridge request_bridge
  start_bridge-AddsOne accepted js =
      let here = start_bridge host config accepted js in
      elim (Action-cases (verify_cc host config.cc accepted js.1)) [
        | inr (e, t, bad) ↦
            let end : here ≡ (raised e, (js.0, t)) = ground arith in rw end (refl, omega arith)
        | inl (_, t, good) ↦
            let end : here ≡ request_bridge host config accepted (js.0, t) = ground arith in
            rw end (bridged-AddsOne (call t).0 (js.0, (call t).1))
      ]
    where
      call : S → Outcome ControlResponse × S
      call =
          host.transact op_bridge_start accepted config.backend_ipv4 config.backend.port []
            (pos 0 ∷ [])

  settle-keeps :
      (accepted : ℤ) (r : Outcome (Option ℤ)) (js : Running S)
      → (settle host config accepted r js).1.0 ≡ js.0
  unfolding announce
  settle-keeps accepted (ok (some handle)) js = ground arith
  settle-keeps accepted (ok none) js = refl
  settle-keeps accepted (raised e) js = refl

  serve_accepted-AddsOne :
      (accepted : ℤ) (js : Running S) → AddsOne js (serve_accepted host config accepted js).1
  unfolding serve_accepted
  serve_accepted-AddsOne accepted js = elim (Bool-cases (leb_ℤ accepted (pos 0))) [
    | inl bad ↦ rw (bad, serve_accepted) (refl, omega arith)
    | inr good ↦
        let (r, js') = start_bridge host config accepted js in
        let end : serve_accepted host config accepted js ≡ settle host config accepted r js' =
          rw (good, serve_accepted) refl in
        rw (end, settle-keeps accepted r js') (start_bridge-AddsOne accepted js)
  ]

  accept_nonblock-keeps :
      (listener : ℤ) (js : Running S) → (accept_nonblock host config listener js).1.0 ≡ js.0
  unfolding accept_nonblock
  accept_nonblock-keeps listener js = refl

  accept_loop-keeps :
      (listener : ℤ) (fuel : ℕ) (js : Running S)
      → IsWithinLimit js.0
      → IsWithinLimit (accept_loop host config listener fuel js).1.0
  unfolding accept_loop
  accept_loop-keeps listener zero js h = h
  accept_loop-keeps listener (suc fuel) js h =
      let here = accept_loop host config listener (suc fuel) js in
      let (r, js') = accept_nonblock host config listener js in
      elim (Bool-cases (has_room host config js.0)) [
        | inr full ↦ let end : here ≡ (ok true, js) = ground arith in rw end h
        | inl room ↦ elim (Action-cases (accept_nonblock host config listener js)) [
          | inr (e, t, bad) ↦
              let end : here ≡ (raised e, t) = ground arith in
              let kept : t.0 ≡ js.0 =
                ap (λ x. x.1.0) (sym bad) ∙ accept_nonblock-keeps listener js in
              rw (end, kept) h
          | inl (none, t, nothing) ↦
              let end : here ≡ (ok true, t) = ground arith in
              let kept : t.0 ≡ js.0 =
                ap (λ x. x.1.0) (sym nothing) ∙ accept_nonblock-keeps listener js in
              rw (end, kept) h
          | inl (some accepted, t, found) ↦
              let kept : t.0 ≡ js.0 =
                ap (λ x. x.1.0) (sym found) ∙ accept_nonblock-keeps listener js in
              let within : IsWithinLimit (serve_accepted host config accepted t).1.0 =
                λ limited. ground (arith, (serve_accepted-AddsOne accepted t).1) in
              elim (Action-cases (serve_accepted host config accepted t)) [
                | inr (e, u, bad) ↦
                    let end : here ≡ (raised e, u) = ground arith in
                    rw end (subst (λ x. IsWithinLimit x.1.0) bad within)
                | inl (_, u, good) ↦
                    let end : here ≡ accept_loop host config listener fuel u = ground arith in
                    rw end (
                      accept_loop-keeps listener fuel u
                        (subst (λ x. IsWithinLimit x.1.0) good within))
              ]
        ]
      ]

  -- If there is an admission limit and the active bridges do not exceed it, then, however many
  -- connections are accepted, and whatever fails, the accept loop does not take their number
  -- beyond it.
  pub accept_loop_limited :
      (listener : ℤ) (fuel : ℕ) (js : Running S)
      → config.max_connections ≢ 0
      → length js.0.active_bridges ≤ config.max_connections
      → length (accept_loop host config listener fuel js).1.0.active_bridges
        ≤ config.max_connections
  accept_loop_limited listener fuel js limited h =
      accept_loop-keeps listener fuel js (λ _. h) limited
