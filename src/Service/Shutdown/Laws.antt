-- ===== src/Service/Shutdown/Laws.antt =====
-- A shutdown that reports nothing has stopped the hosted process.
use linux_tcp_cc.Base.{
  ℕ, ◌≡◌, refl, sym, ◌∙◌, ap, Bool, true, false, ◌&&◌, Option, none, some, [], Error, Failures, nil,
  cons, extend, timeout_expired, Outcome, ok, raised, Action, Action-cases, Bool-cases,
  Option-cases, inl, inr, ⊤, ok-injective, arith,
}
use mathlib.Core.Path.{subst}
use linux_tcp_cc.Base.Int.{ℤ}
use linux_tcp_cc.Service.Runtime.{Hosted, Runtime, Running, outside}
use linux_tcp_cc.Service.Drain.{Closing}
use linux_tcp_cc.Service.Shutdown.{
  Child, Lifecycle, noted, noted_failure, kill_after, force_stop, stop_kernel, close_pipes, stop_if,
  release_child, so_far, ending, shut_down, shutdown,
}
use linux_tcp_cc.Service.Shutdown.Bridges.{orderly-nil}

-- What the calls promise about the process: a status, from `poll` or `wait`, means that it has
-- ended, and closing a pipe does not start it again.
pub record Contract {S : Type 0} (alive : S → Bool) (host : Hosted S) (child : Child S)
    : Type 0 where
  pub polled :
      (s : S) (status : ℤ) → (host.poll s).0 ≡ ok (some status) → alive (host.poll s).1 ≡ false
  pub waited :
      (ms : ℕ) (s : S) (status : ℤ)
      → (child.wait ms s).0 ≡ ok status
      → alive (child.wait ms s).1 ≡ false
  pub stdin_keeps : (s : S) → alive s ≡ false → alive (child.close_stdin s).1 ≡ false
  pub stdout_keeps : (s : S) → alive s ≡ false → alive (child.close_stdout s).1 ≡ false

noted_failure-nil :
    (failures : Failures) (r : Outcome ⊤)
    → noted_failure failures r ≡ nil
    → (failures ≡ nil) × (r ≡ ok tt)
unfolding extend
noted_failure-nil failures (ok _) h = (h, refl)
noted_failure-nil nil (raised e) h = cc
noted_failure-nil (cons label f rest) (raised e) h = cc

module _ {S : Type 0} (alive : S → Bool) (host : Hosted S) (closing : Closing S) (child : Child S)
    (keeps : Contract alive host child) where
  kill_after-stops :
      (e : Error) (s : S)
      → (kill_after host closing child e s).0 ≡ ok tt
      → alive (kill_after host closing child e s).1 ≡ false
  kill_after-stops timeout_expired s h = elim (Action-cases (child.kill s)) [
    | inr (e, t, bad) ↦ absurd (ground arith)
    | inl (_, t, killed) ↦ elim (Action-cases (child.wait 2000 t)) [
      | inr (e, u, bad) ↦ absurd (ground arith)
      | inl (status, u, good) ↦ ground (arith, keeps.waited 2000 t status)
    ]
  ]
  kill_after-stops e s h = absurd (ground arith)

  force_stop-stops :
      (s : S)
      → (force_stop host closing child s).0 ≡ ok tt
      → alive (force_stop host closing child s).1 ≡ false
  unfolding force_stop
  force_stop-stops s h =
      let here = force_stop host closing child s in
      elim (Action-cases (host.poll s)) [
        | inr (e, t, bad) ↦ absurd (ground arith)
        | inl (asked, t, polled) ↦ elim (Option-cases asked) [
          | inr (status, gone) ↦ ground (arith, keeps.polled s status)
          | inl running ↦ elim (Action-cases (child.terminate t)) [
            | inr (e, u, bad) ↦ absurd (ground arith)
            | inl (_, u, asked_to) ↦ elim (Action-cases (child.wait 2000 u)) [
              | inl (status, v, ended) ↦ ground (arith, keeps.waited 2000 u status)
              | inr (e, v, late) ↦
                  let end : here ≡ kill_after host closing child e v = ground arith in
                  rw end (kill_after-stops e v (ap (λ r. r.0) (sym end) ∙ h))
            ]
          ]
        ]
      ]

  -- Failures that stay empty mean that the noted call returned.
  noted-nil :
      (m : Action (Running S) ⊤) (failures : Failures) (js : Running S)
      → (noted host closing child m (failures, js)).0 ≡ nil
      → (failures ≡ nil) × ((m js).0 ≡ ok tt)
  noted-nil m failures js h = noted_failure-nil failures (m js).0 h

  stop_if-stops :
      (asked : Option ℤ) (failures : Failures) (js : Running S)
      → ((status : ℤ) → asked ≡ some status → alive js.1 ≡ false)
      → (stop_if host closing child asked (failures, js)).0 ≡ nil
      → alive (stop_if host closing child asked (failures, js)).1.1 ≡ false
  stop_if-stops none failures (run, s) gone h =
      let (_, stopped) = noted-nil (outside (force_stop host closing child)) failures (run, s) h in
      force_stop-stops s stopped
  stop_if-stops (some status) failures js gone h = gone status refl

  close_pipes-stops :
      (fjs : Failures × Running S)
      → (close_pipes host closing child fjs).0 ≡ nil
      → (fjs.0 ≡ nil → alive fjs.1.1 ≡ false)
      → alive (close_pipes host closing child fjs).1.1 ≡ false
  close_pipes-stops (failures, (run, s)) h stopped =
      let js : Running S = (run, s) in
      let first = noted host closing child (outside child.close_stdin) (failures, js) in
      let (clear, _) = noted-nil (outside child.close_stdout) first.0 first.1 h in
      let (before, _) = noted-nil (outside child.close_stdin) failures js clear in
      keeps.stdout_keeps first.1.1 (keeps.stdin_keeps s (stopped before))

  release_child-stops :
      (failures : Failures) (js : Running S)
      → (release_child host closing child failures js).0 ≡ ok nil
      → alive (release_child host closing child failures js).1.1 ≡ false
  unfolding release_child
  release_child-stops failures (run, s) h = elim (Action-cases (host.poll s)) [
    | inr (e, t, bad) ↦ absurd (ground arith)
    | inl (asked, t, polled) ↦
        let stopped = stop_if host closing child asked (failures, (run, t)) in
        let end : release_child host closing child failures (run, s) ≡ (
          ok (close_pipes host closing child stopped).0,
          (close_pipes host closing child stopped).1,
        ) =
          ground arith in
        let clear : (close_pipes host closing child stopped).0 ≡ nil =
          ok-injective (sym (ap (λ r. r.0) end) ∙ h) in
        ap (λ r. alive r.1.1) end
        ∙ close_pipes-stops stopped clear (
            stop_if-stops asked failures (run, t)
              (λ status is. ground (arith, keeps.polled s status)))
  ]

  -- How a shutdown ended: one that returned has stopped the process.
  abbrev pub IsStopped : Outcome ⊤ → S → Type 0
  IsStopped (ok _) s = alive s ≡ false
  IsStopped (raised e) s = ⊤

  -- After the orderly branch no bridge is left.
  abbrev pub Forgets : Outcome (Option ℤ) → Bool → Runtime → Type 0
  Forgets (ok none) true run = run.active_bridges ≡ []
  Forgets _ _ run = ⊤

  ending-IsStopped :
      (r last : Outcome Failures) (s : S)
      → (last ≡ ok nil → alive s ≡ false)
      → IsStopped (ending host closing child r last) s
  ending-IsStopped r (raised e) s h = tt
  ending-IsStopped (raised e) (ok failures) s h = tt
  ending-IsStopped (ok _) (ok nil) s h = h refl
  ending-IsStopped (ok _) (ok (cons label e rest)) s h = tt

  release_child-keeps :
      (failures : Failures) (js : Running S)
      → (release_child host closing child failures js).1.0 ≡ js.0
  unfolding release_child
  release_child-keeps failures (run, s) = elim (Action-cases (host.poll s)) [
    | inr (e, t, bad) ↦ ground arith
    | inl (asked, t, polled) ↦ elim (Option-cases asked) [
      | inl running ↦ ground arith
      | inr (status, gone) ↦ ground arith
    ]
  ]

  stop_kernel-Forgets :
      (fuel : ℕ) (l : Lifecycle) (asked : Option ℤ) (js : Running S)
      → Forgets
          (ok asked)
          (l.connected && l.attached)
          (stop_kernel host closing child fuel l asked js).1.0
  unfolding stop_kernel
  stop_kernel-Forgets fuel l (some status) js = tt
  stop_kernel-Forgets fuel l none js =
      let run = (stop_kernel host closing child fuel l none js).1.0 in
      elim (Bool-cases (l.connected && l.attached)) [
        | inr off ↦ subst (λ b. Forgets (ok none) b run) (sym off) tt
        | inl on ↦
            let cleared : run.active_bridges ≡ [] =
              ground (arith, orderly-nil host closing child fuel js) in
            subst (λ b. Forgets (ok none) b run) (sym on) cleared
      ]

  shut_down-settles :
      (fuel : ℕ) (l : Lifecycle) (js : Running S)
      → let r = shut_down host closing child fuel l js in
        IsStopped r.0 r.1.1 × Forgets (host.poll js.1).0 (l.connected && l.attached) r.1.0
  unfolding shut_down
  shut_down-settles fuel l (run, s) =
      let js : Running S = (run, s) in
      let here = shut_down host closing child fuel l js in
      let flag = l.connected && l.attached in
      elim (Action-cases (host.poll s)) [
        | inr (e, t, bad) ↦
            let end : here ≡ (raised e, (run, t)) = ground arith in
            let same : (host.poll s).0 ≡ raised e = ap (λ r. r.0) bad in rw (end, same) (tt, tt)
        | inl (asked, t, polled) ↦
            let body = stop_kernel host closing child fuel l asked (run, t) in
            let failures = so_far host closing child body.0 in
            let last = release_child host closing child failures body.1 in
            let end : here ≡ (ending host closing child body.0 last.0, last.1) = ground arith in
            let same : (host.poll s).0 ≡ ok asked = ap (λ r. r.0) polled in
            let kept = release_child-keeps failures body.1 in
            let forgets : Forgets (ok asked) flag last.1.0 =
              subst (Forgets (ok asked) flag) (sym kept)
                (stop_kernel-Forgets fuel l asked (run, t)) in
            rw (end, same)
              (
                ending-IsStopped body.0 last.0 last.1.1 (release_child-stops failures body.1),
                forgets,
              )
      ]

  -- For a process whose status is only known once it has ended: `shutdown`, called for the first
  -- time on a runtime that was started, has stopped the process if it returns; if the kernel was
  -- running with the TUN queue attached, then no bridge is left in the set, also where `shutdown`
  -- raises; and a second call does nothing and raises nothing.
  pub shutdown_settles :
      (fuel again : ℕ) (l : Lifecycle) (js : Running S)
      → l.started ≡ true
      → l.closed ≡ false
      → let r = shutdown host closing child fuel (l, js) in
        IsStopped r.0 r.1.1.1
        × Forgets (host.poll js.1).0 (l.connected && l.attached) r.1.1.0
        × (shutdown host closing child again r.1 ≡ (ok tt, r.1))
  unfolding shutdown
  shutdown_settles fuel again l js up open_still =
      let (stopped, forgets) = shut_down-settles fuel l js in
      let r = shut_down host closing child fuel l js in
      let end : shutdown host closing child fuel (l, js)
          ≡ (r.0, (record l { closed = true }, r.1)) =
        ground arith in
      rw end (stopped, forgets, refl)
