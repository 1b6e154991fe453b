-- ===== src/Service/Accept/Loop.antt =====
-- The accept loop as a whole.
use linux_tcp_cc.Base.{
  ℕ, zero, suc, ◌<◌, ◌≡◌, ◌≢◌, ◌⊎◌, refl, ◌∙◌, ap, Bool, true, false, none, [], ◌∷◌, Error, Outcome,
  ok, raised, Action-cases, Bool-cases, inl, inr, operation_error, arith,
}
use mathlib.Core.Path.{subst}
use linux_tcp_cc.Base.Int.{ℤ, pos, eq_ℤ}
use linux_tcp_cc.Control.Request.{ControlResponse}
use linux_tcp_cc.Service.Runtime.{
  Hosted, Runtime, Running, RuntimeConfig, op_accept_nonblock, minus_eagain,
}
use linux_tcp_cc.Service.Accept.{
  has_room, serve_accepted, to_accepted, accept_nonblock, accept_loop,
}
use linux_tcp_cc.Service.Accept.Sockets.{Observed, Contract, IsLeft, serve_accepted-IsLeft}

module _ {S : Type 0} (obs : S → Observed) (host : Hosted S) (keeps : Contract obs host)
    (config : RuntimeConfig) where
  to_accepted-raised :
      (e : Error)
      → (to_accepted host config (raised e) ≡ ok none)
        ⊎ ((e' : Error) × (to_accepted host config (raised e) ≡ raised e'))
  to_accepted-raised (operation_error operation status) =
      elim (Bool-cases (eq_ℤ status minus_eagain)) [
        | inl again ↦ inl (ground arith)
        | inr other ↦ inr (operation_error operation status, ground arith)
      ]
  to_accepted-raised e = inr (e, refl)

  accept_nonblock_lem :
      (listener : ℤ) (run : Runtime) (s : S) (r : Outcome ControlResponse) (t : S)
      → host.transact op_accept_nonblock listener 0 0 [] (pos 0 ∷ []) s ≡ (r, t)
      → accept_nonblock host config listener (run, s) ≡ (to_accepted host config r, (run, t))
  unfolding accept_nonblock
  accept_nonblock_lem listener run s r t e = ap (λ x. (to_accepted host config x.0, (run, x.1))) e

  abbrev pub Settled : Running S → Outcome Bool × Running S → Type 0
  Settled js r = (r.0 ≢ ok false) × ((obs r.1.1).waiting ≡ (obs js.1).waiting)

  -- For a hosted side that keeps its contract: if the hosted side will hand out fewer sockets
  -- during this call than the fuel counts, then the accept loop ends by itself, with or without
  -- an error, and no accepted socket is left behind: each was handed to a bridge or asked to
  -- close.
  pub accept_loop-Settled :
      (listener : ℤ) (fuel : ℕ) (js : Running S)
      → (obs js.1).pending < fuel
      → Settled js (accept_loop host config listener fuel js)
  unfolding accept_loop
  accept_loop-Settled listener zero js h = elim h [ ]
  accept_loop-Settled listener (suc fuel) (run, s) h =
      let js : Running S = (run, s) in
      let here = accept_loop host config listener (suc fuel) js in
      elim (Bool-cases (has_room host config run)) [
        | inr full ↦ let end : here ≡ (ok true, js) = ground arith in rw end (ground arith, refl)
        | inl room ↦
            elim (Action-cases (host.transact op_accept_nonblock listener 0 0 [] (pos 0 ∷ []) s)) [
              | inr (e, t, refused) ↦
                  let same = keeps.not_accepted listener s t e refused in
                  let asked : accept_nonblock host config listener js
                      ≡ (to_accepted host config (raised e), (run, t)) =
                    accept_nonblock_lem listener run s (raised e) t refused in
                  elim (to_accepted-raised e) [
                    | inl nothing ↦
                        let end : here ≡ (ok true, (run, t)) = ground arith in
                        rw end (ground arith, rw same refl)
                    | inr (e', bad) ↦
                        let end : here ≡ (raised e', (run, t)) = ground arith in
                        rw end (ground arith, rw same refl)
                  ]
              | inl (r, t, granted) ↦
                  let new = keeps.accepted listener s t r granted in
                  let asked = accept_nonblock_lem listener run s (ok r) t granted in
                  let left =
                    serve_accepted-IsLeft obs host keeps config r.handle (obs s).waiting
                      (obs t).pending (run, t) new.0 (new.1, refl) in
                  elim (Action-cases (serve_accepted host config r.handle (run, t))) [
                    | inr (e, u, bad) ↦
                        let end : here ≡ (raised e, u) = ground arith in
                        rw end (
                          ground arith,
                          subst (λ x. (obs x.1.1).waiting ≡ (obs s).waiting) bad left.0,
                        )
                    | inl (_, u, good) ↦
                        let end : here ≡ accept_loop host config listener fuel u = ground arith in
                        let left' =
                          subst
                            (λ x.
                              IsLeft obs host keeps config (obs s).waiting (obs t).pending x.1.1)
                            good left in
                        let rest = accept_loop-Settled listener fuel u (omega arith) in
                        rw end (rest.0, rest.1 ∙ left'.0)
                  ]
            ]
      ]
