-- ===== src/Service/Accept/Sockets.antt =====
-- Every accepted socket is handed to a bridge or asked to close, and the accept loop ends.
use linux_tcp_cc.Base.{
  ℕ, ◌<◌, ◌≡◌, refl, ◌∙◌, false, Option, none, some, List, [], ◌∷◌, Error, Outcome, ok, raised,
  Action-cases, inl, inr, length, operation_error, arith,
}
use linux_tcp_cc.Base.Int.{ℤ, pos, leb_ℤ}
use linux_tcp_cc.Control.Request.{ControlResponse}
use linux_tcp_cc.Service.Runtime.{
  Hosted, Runtime, Running, RuntimeConfig, Event, Diagnostic, connection_rejected,
  connection_opened, not_connected, cleanup_failed, verify_cc, op_get_cc, op_accept_nonblock,
  op_bridge_start, op_close, minus_ebadf,
}
use linux_tcp_cc.Service.Accept.{
  reject, bridged, settle, request_bridge, start_bridge, announce, close_accepted, serve_accepted,
}

-- What is observed of the hosted side: the accepted sockets that no bridge has taken and whose
-- close was not requested, newest first, and how many more sockets it will hand out while this
-- accept loop runs.
pub record Observed : Type 0 where
  pub waiting : List ℤ
  pub pending : ℕ

-- The promises of the ABI that the accept loop relies on. A close counts as asked for also if
-- its answer is an error.
pub record Contract {S : Type 0} (obs : S → Observed) (host : Hosted S) : Type 0 where
  pub event_keeps : (e : Event) (s : S) → obs (host.event e s).1 ≡ obs s
  pub diagnostic_keeps : (d : Diagnostic) (s : S) → obs (host.diagnostic d s).1 ≡ obs s
  pub get_cc_keeps :
      (handle : ℤ) (s : S) → obs (host.transact op_get_cc handle 0 0 [] (pos 0 ∷ []) s).1 ≡ obs s
  pub accepted :
      (listener : ℤ) (s t : S) (r : ControlResponse)
      → host.transact op_accept_nonblock listener 0 0 [] (pos 0 ∷ []) s ≡ (ok r, t)
      → (leb_ℤ r.handle (pos 0) ≡ false)
        × ((obs t).waiting ≡ r.handle ∷ (obs s).waiting)
        × ((obs t).pending < (obs s).pending)
  pub not_accepted :
      (listener : ℤ) (s t : S) (e : Error)
      → host.transact op_accept_nonblock listener 0 0 [] (pos 0 ∷ []) s ≡ (raised e, t)
      → obs t ≡ obs s
  pub bridge_taken :
      (handle : ℤ) (ipv4 port : ℕ) (rest : List ℤ) (s t : S) (r : ControlResponse)
      → host.transact op_bridge_start handle ipv4 port [] (pos 0 ∷ []) s ≡ (ok r, t)
      → (obs s).waiting ≡ handle ∷ rest
      → (leb_ℤ r.handle (pos 0) ≡ false)
        × ((obs t).waiting ≡ rest)
        × ((obs t).pending ≡ (obs s).pending)
  pub bridge_refused :
      (handle : ℤ) (ipv4 port : ℕ) (s t : S) (e : Error)
      → host.transact op_bridge_start handle ipv4 port [] (pos 0 ∷ []) s ≡ (raised e, t)
      → obs t ≡ obs s
  pub close_asked :
      (handle : ℤ) (rest : List ℤ) (s : S)
      → (obs s).waiting ≡ handle ∷ rest
      → let t = (host.transact op_close handle 0 0 [] (pos 0 ∷ minus_ebadf ∷ []) s).1 in
        ((obs t).waiting ≡ rest) × ((obs t).pending ≡ (obs s).pending)

module _ {S : Type 0} (obs : S → Observed) (host : Hosted S) (keeps : Contract obs host)
    (config : RuntimeConfig) where
  verify_cc-keeps : (handle : ℤ) (s : S) → obs (verify_cc host config.cc handle s).1 ≡ obs s
  unfolding verify_cc
  verify_cc-keeps handle s = ground (arith, keeps.get_cc_keeps handle s)

  -- The sockets that wait are `rest`, and `n` more are pending.
  abbrev pub IsLeft : List ℤ → ℕ → S → Type 0
  IsLeft rest n s = ((obs s).waiting ≡ rest) × ((obs s).pending ≡ n)

  close_accepted-IsLeft :
      (accepted : ℤ) (rest : List ℤ) (n : ℕ) (s : S)
      → IsLeft (accepted ∷ rest) n s
      → IsLeft rest n (close_accepted host config accepted s).1
  unfolding close_accepted
  close_accepted-IsLeft accepted rest n s h =
      elim (Action-cases (host.transact op_close accepted 0 0 [] (pos 0 ∷ minus_ebadf ∷ []) s)) [
        | inl (r, t, done) ↦ ground (arith, keeps.close_asked accepted rest s h.0)
        | inr (e, t, failed) ↦ ground (
          arith,
          keeps.close_asked accepted rest s h.0,
          keeps.diagnostic_keeps (cleanup_failed accepted e) t,
        )
      ]

  announce-IsLeft :
      (handle : ℤ) (rest : List ℤ) (n : ℕ) (js : Running S)
      → IsLeft rest n js.1
      → IsLeft rest n (announce host config handle js).1.1
  unfolding announce
  announce-IsLeft handle rest n (run, s) h =
      ground (arith, keeps.event_keeps (connection_opened handle (length run.active_bridges)) s)

  -- What `start_bridge` leaves, by how it ended.
  abbrev Started : ℤ → List ℤ → ℕ → Outcome (Option ℤ) × Running S → Type 0
  Started accepted rest n (ok (some handle), js) = IsLeft rest n js.1
  Started accepted rest n (ok none, js) = IsLeft (accepted ∷ rest) n js.1
  Started accepted rest n (raised e, js) = IsLeft (accepted ∷ rest) n js.1

  reject-Started :
      (accepted status : ℤ) (rest : List ℤ) (n : ℕ) (js : Running S)
      → IsLeft (accepted ∷ rest) n js.1
      → Started accepted rest n (reject host config status js)
  reject-Started accepted status rest n (run, s) h =
      let kept = keeps.event_keeps (connection_rejected status) s in
      elim (Action-cases (host.event (connection_rejected status) s)) [
        | inr (e, t, bad) ↦
            let end : reject host config status (run, s) ≡ (raised e, (run, t)) = ground arith in
            rw end (ground arith)
        | inl (_, t, good) ↦
            let kept' = keeps.diagnostic_keeps (not_connected status) t in
            elim (Action-cases (host.diagnostic (not_connected status) t)) [
              | inr (e, u, bad) ↦
                  let end : reject host config status (run, s) ≡ (raised e, (run, u)) =
                    ground arith in
                  rw end (ground arith)
              | inl (_, u, fine) ↦
                  let end : reject host config status (run, s) ≡ (ok none, (run, u)) =
                    ground arith in
                  rw end (ground arith)
            ]
      ]

  bridged-Started :
      (accepted : ℤ) (rest : List ℤ) (n : ℕ) (run : Runtime) (s : S)
      → IsLeft (accepted ∷ rest) n s
      → (r : Outcome ControlResponse) (t : S)
      → host.transact op_bridge_start accepted config.backend_ipv4 config.backend.port []
          (pos 0 ∷ [])
          s
        ≡ (r, t)
      → Started accepted rest n (bridged host config r (run, t))
  bridged-Started accepted rest n run s h (ok r) t e =
      let taken =
        keeps.bridge_taken accepted config.backend_ipv4 config.backend.port rest s t r e h.0 in
      rw taken.0 (taken.1, taken.2 ∙ h.1)
  bridged-Started accepted rest n run s h (raised (operation_error operation status)) t e =
      let same = keeps.bridge_refused accepted config.backend_ipv4 config.backend.port s t _ e in
      reject-Started accepted status rest n (run, t) (rw same h)
  bridged-Started accepted rest n run s h (raised e') t e =
      let same = keeps.bridge_refused accepted config.backend_ipv4 config.backend.port s t _ e in
      rw same h

  start_bridge-Started :
      (accepted : ℤ) (rest : List ℤ) (n : ℕ) (js : Running S)
      → IsLeft (accepted ∷ rest) n js.1
      → Started accepted rest n (start_bridge host config accepted js)
  unfolding start_bridge request_bridge
  start_bridge-Started accepted rest n (run, s) h =
      let here = start_bridge host config accepted (run, s) in
      let kept = verify_cc-keeps accepted s in
      elim (Action-cases (verify_cc host config.cc accepted s)) [
        | inr (e, t, bad) ↦
            let end : here ≡ (raised e, (run, t)) = ground arith in rw end (ground arith)
        | inl (_, t, good) ↦
            let end : here ≡ request_bridge host config accepted (run, t) = ground arith in
            rw end (bridged-Started accepted rest n run t (ground arith) _ _ refl)
      ]

  settle-IsLeft :
      (accepted : ℤ) (rest : List ℤ) (n : ℕ) (r : Outcome (Option ℤ)) (js : Running S)
      → Started accepted rest n (r, js)
      → IsLeft rest n (settle host config accepted r js).1.1
  settle-IsLeft accepted rest n (ok (some handle)) js h = announce-IsLeft handle rest n js h
  settle-IsLeft accepted rest n (ok none) js h = close_accepted-IsLeft accepted rest n js.1 h
  settle-IsLeft accepted rest n (raised e) js h = close_accepted-IsLeft accepted rest n js.1 h

  -- For a hosted side that keeps its contract: a socket that was accepted with a positive handle
  -- is, after its round of the loop, either in the hands of a bridge or asked to close, whatever
  -- fails on the way: the verification of the congestion control, the connection to the backend,
  -- the close itself or an output.
  pub serve_accepted-IsLeft :
      (accepted : ℤ) (rest : List ℤ) (n : ℕ) (js : Running S)
      → leb_ℤ accepted (pos 0) ≡ false
      → IsLeft (accepted ∷ rest) n js.1
      → IsLeft rest n (serve_accepted host config accepted js).1.1
  unfolding serve_accepted
  serve_accepted-IsLeft accepted rest n js positive h =
      let (r, js') = start_bridge host config accepted js in
      let end : serve_accepted host config accepted js ≡ settle host config accepted r js' =
        rw (positive, serve_accepted) refl in
      rw end (settle-IsLeft accepted rest n r js' (start_bridge-Started accepted rest n js h))
