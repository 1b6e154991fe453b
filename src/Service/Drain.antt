-- ===== src/Service/Drain.antt =====
-- `_drain_bridges`: the grace period of a shutdown, by the clock of the process.
pub mod Clock
pub mod Laws
use linux_tcp_cc.Base.{
  ℕ, zero, suc, ◌+◌, ◌-◌, ◌*◌, ◌/◌, Bool, true, false, List, [], ◌∷◌, ⊤, Outcome, ok, raised,
  Action, pure, ◌>>=◌, ◌>>◌, leb, ltb, ◌==◌, length, if◌then◌else◌,
}
use linux_tcp_cc.Base.Int.{ℤ}
use linux_tcp_cc.Service.Runtime.{Hosted, Running, outside, gets}
use linux_tcp_cc.Service.Bridges.{join_bridge_result}

abbrev pub bridge_drain_join_slice_ms : ℕ
bridge_drain_join_slice_ms = 50

-- What is emitted, with the numbers of connections that are left.
pub data DrainEvent : Type 0 where
  draining drain_timeout grace_expired : ℕ → DrainEvent

-- The clock in microseconds; to read it changes nothing. `grace` is `shutdown_grace_period`.
pub record Closing (S : Type 0) : Type 0 where
  pub clock : S → ℕ
  pub emit : DrainEvent → Action S ⊤
  pub grace : ℕ

-- `max(1, min(BRIDGE_DRAIN_JOIN_SLICE_MS, int(remaining * 1000)))`
abbrev pub slice_ms : ℕ → ℕ
slice_ms remaining =
    let ms = remaining / 1000 in
    let short = if ltb ms bridge_drain_join_slice_ms then ms else bridge_drain_join_slice_ms in
    if ltb short 1 then 1 else short

module _ {S : Type 0} (host : Hosted S) (closing : Closing S) where
  -- The `for` loop over a copy of the set.
  unfoldable pub drain_round : ℕ → List ℤ → Action (Running S) ⊤
  drain_round deadline [] js = (ok tt, js)
  drain_round deadline (handle ∷ rest) js = elim (leb deadline (closing.clock js.1)) [
    | true ↦ (ok tt, js)
    | false ↦
        (join_bridge_result host handle (slice_ms (deadline - closing.clock js.1)) >>= λ _.
        drain_round deadline rest)
          js
  ]

  -- The `while` loop. The result is false if the fuel ran out.
  unfoldable pub drain_loop : ℕ → ℕ → Action (Running S) Bool
  unfolding drain_round
  drain_loop zero deadline js = (ok false, js)
  drain_loop (suc fuel) deadline js =
      let again = drain_loop fuel deadline in
      elim js.0.active_bridges [
        | [] ↦ (ok true, js)
        | handle ∷ rest ↦
            (drain_round deadline (handle ∷ rest) >>= λ _ ks.
            elim (leb deadline (closing.clock ks.1)) [ true ↦ (ok true, ks) | false ↦ again ks ])
              js
      ]

  -- The events after a loop that ended with bridges left.
  unfoldable pub expired : Bool → Action (Running S) Bool
  expired ended js = elim js.0.active_bridges [
    | [] ↦ (ok ended, js)
    | handle ∷ rest ↦
        (do
          outside (closing.emit (drain_timeout (length (handle ∷ rest))))
          outside (closing.emit (grace_expired (length (handle ∷ rest))))
          pure ended)
          js
  ]

  -- `_drain_bridges`
  unfoldable pub drain_bridges : ℕ → Action (Running S) Bool
  unfolding drain_loop expired
  drain_bridges fuel js = elim js.0.active_bridges [
    | [] ↦ (ok true, js)
    | handle ∷ rest ↦
        (outside (closing.emit (draining (length (handle ∷ rest)))) >>= λ _ ks.
        elim (closing.grace == 0) [
          | true ↦ (ok true, ks)
          | false ↦
              (drain_loop fuel (closing.clock ks.1 + closing.grace) >>= λ ended. expired ended) ks
        ])
          js
  ]
