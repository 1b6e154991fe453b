-- ===== src/Host/Tun/Laws.antt =====
-- The queue descriptor is owned by the returned queue, or closed.
use linux_tcp_cc.Base.{
  ℕ, zero, suc, ◌≡◌, refl, Bool, true, false, Option, none, some, Option-cases, ⊤, ok-injective,
  List, ◌∷◌, Text, text_eq_iff, Error, tun_setup_cleanup, Outcome, ok, raised, Action, Action-cases,
  inl, inr, ap, ◌⊎◌, sym, ◌∙◌, Bool-cases, leb, if◌then◌else◌, value_error, Outcome-cases, arith,
}
use mathlib.Core.Path.{subst}
use linux_tcp_cc.Host.Config.{TunConfig}
use linux_tcp_cc.Host.Names.{is_tun_name}
use linux_tcp_cc.Host.Tun.{
  TunSystem, TunQueue, Attempt, attached, failed, is_path, attached_name, ifreq, address_command,
  link_command, route_command, configure, attempt, after_setup_error, next_name, generated,
  try_names, create_tun_queue, close,
}

-- What the calls promise about the resources that are held, newest first; `of_fd` is the resource
-- of an open descriptor.
pub record Contract {S R : Type 0} (of_fd : ℕ → R) (fds : S → List R) (sys : TunSystem S)
    : Type 0 where
  pub opened : (s : S) (fd : ℕ) → (sys.opener s).0 ≡ ok fd → fds (sys.opener s).1 ≡ of_fd fd ∷ fds s
  pub open_refused :
      (s : S) (e : Error) → (sys.opener s).0 ≡ raised e → fds (sys.opener s).1 ≡ fds s
  pub ioctl_keeps : (fd : ℕ) (request : List ℕ) (s : S) → fds (sys.ioctl fd request s).1 ≡ fds s
  pub runner_keeps : (argv : List Text) (s : S) → fds (sys.runner argv s).1 ≡ fds s
  pub name_keeps : (s : S) → fds (sys.name_factory s).1 ≡ fds s
  pub closed :
      (fd : ℕ) (s : S) (rest : List R)
      → fds s ≡ of_fd fd ∷ rest
      → (sys.closer fd s).0 ≡ ok tt
      → fds (sys.closer fd s).1 ≡ rest

-- The error reports that the temporary descriptor could not be closed.
abbrev pub is_setup_cleanup : Error → Bool
is_setup_cleanup (tun_setup_cleanup setup cleanup) = true
is_setup_cleanup _ = false

-- The name is the configured one, if there is one.
abbrev pub IsConfigured : Option Text → Text → Type 0
IsConfigured none name = ⊤
IsConfigured (some wanted) name = name ≡ wanted

Attempt-cases :
    (r : Attempt)
    → ((actual : Text) × (r ≡ attached actual))
      ⊎ ((e : Error) × (collision : Bool) × (r ≡ failed e collision))
Attempt-cases (attached actual) = inl (actual, refl)
Attempt-cases (failed e collision) = inr (e, collision, refl)

module _ {S R : Type 0} (of_fd : ℕ → R) (fds : S → List R) (sys : TunSystem S)
    (keeps : Contract of_fd fds sys) (ip_path : Text) (config : TunConfig) where
  configure-keeps :
      (name : Text) (request : List ℕ) (s : S)
      → fds (configure sys ip_path config name request s).1 ≡ fds s
  unfolding configure
  configure-keeps name request s =
      let t = (sys.runner (address_command sys ip_path config name) s).1 in
      let u = (sys.runner (link_command sys ip_path config name) t).1 in
      ground (
        arith,
        keeps.runner_keeps (address_command sys ip_path config name) s,
        keeps.runner_keeps (link_command sys ip_path config name) t,
        keeps.runner_keeps (route_command sys ip_path config name) u,
      )

  attempt-keeps :
      (gen : Bool) (name : Text) (fd : ℕ) (s : S)
      → fds (attempt sys ip_path config gen name fd s).1 ≡ fds s
  unfolding attempt
  attempt-keeps gen name fd s = grind (arith, keeps.ioctl_keeps, configure-keeps)

  configure-name :
      (name : Text) (request : List ℕ) (s : S) (actual : Text)
      → (configure sys ip_path config name request s).0 ≡ ok actual
      → actual ≡ name
  unfolding configure
  configure-name name request s actual h = elim (Outcome-cases (attached_name request)) [
    | inr (e, bad) ↦ absurd (ground arith)
    | inl (found, e) ↦ ground (arith, text_eq_iff found name)
  ]

  attempt-name :
      (gen : Bool) (name : Text) (fd : ℕ) (s : S) (actual : Text)
      → (attempt sys ip_path config gen name fd s).0 ≡ attached actual
      → actual ≡ name
  unfolding attempt
  attempt-name gen name fd s actual h = elim (Action-cases (sys.ioctl fd (ifreq name) s)) [
    | inr (e, t, bad) ↦ absurd (ground arith)
    | inl (request, t, done) ↦ elim (Action-cases (configure sys ip_path config name request t)) [
      | inr (e, u, bad) ↦ absurd (ground arith)
      | inl (found, u, good) ↦
          ground (arith, configure-name name request t found (ap (λ r. r.0) good))
    ]
  ]

  next_name-keeps : (s : S) → fds (next_name sys ip_path config s).1 ≡ fds s
  unfolding next_name
  next_name-keeps s = ground (arith, keeps.name_keeps s)

  next_name-valid :
      (s : S) (name : Text)
      → (next_name sys ip_path config s).0 ≡ ok name
      → (is_tun_name name ≡ true) × IsConfigured config.name name
  unfolding next_name
  next_name-valid s name h = elim (Option-cases config.name) [
    | inl unnamed ↦ (ground arith, rw unnamed tt)
    | inr (wanted, named) ↦ (ground arith, rw named (ground arith))
  ]

  -- What a call that began with the descriptors `before` leaves.
  abbrev Settled : List R → Outcome TunQueue × S → Type 0
  Settled before (ok queue, t) =
      (fd : ℕ) × (queue.fd ≡ some fd)
      × (fds t ≡ of_fd fd ∷ before)
      × (is_tun_name queue.name ≡ true)
      × IsConfigured config.name queue.name
  Settled before (raised e, t) = is_setup_cleanup e ≡ false → fds t ≡ before

  after_setup_error-Settled :
      (e : Error) (collision : Bool) (fd : ℕ) (again : Action S TunQueue) (before : List R) (s : S)
      → fds s ≡ of_fd fd ∷ before
      → ((t : S) → fds t ≡ before → Settled before (again t))
      → Settled before (after_setup_error sys ip_path config e collision fd again s)
  unfolding after_setup_error
  after_setup_error-Settled e collision fd again before s held next =
      elim (Action-cases (sys.closer fd s)) [
        | inr (e', t, bad) ↦
            let end : after_setup_error sys ip_path config e collision fd again s
                ≡ (raised (tun_setup_cleanup e e'), t) =
              ground arith in
            subst (Settled before) (sym end) (λ h. cc)
        | inl (_, t, done) ↦
            let released : fds t ≡ before = ground (arith, keeps.closed fd s before held) in
            elim (Bool-cases collision) [
              | inl taken ↦
                  let end : after_setup_error sys ip_path config e collision fd again s ≡ again t =
                    ground arith in
                  subst (Settled before) (sym end) (next t released)
              | inr free ↦
                  let end : after_setup_error sys ip_path config e collision fd again s
                      ≡ (raised e, t) =
                    ground arith in
                  subst (Settled before) (sym end) (λ _. released)
            ]
      ]

  try_names-Settled :
      (attempts : ℕ) (before : List R) (s : S)
      → fds s ≡ before
      → Settled before (try_names sys ip_path config attempts s)
  unfolding try_names
  try_names-Settled zero before s held = λ _. held
  try_names-Settled (suc attempts) before s held =
      let again = try_names sys ip_path config attempts in
      let here = try_names sys ip_path config (suc attempts) s in
      elim (Action-cases (next_name sys ip_path config s)) [
        | inr (e, t, bad) ↦
            let end : here ≡ (raised e, t) = ground arith in
            subst (Settled before) (sym end) (λ _. ground (arith, next_name-keeps s))
        | inl (name, t, named) ↦ elim (Action-cases (sys.opener t)) [
          | inr (e, u, bad) ↦
              let end : here ≡ (raised e, u) = ground arith in
              subst (Settled before) (sym end)
                (λ _. ground (arith, next_name-keeps s, keeps.open_refused t e))
          | inl (fd, u, opened) ↦
              let r = attempt sys ip_path config (generated sys ip_path config) name fd u in
              let open_fd : fds u ≡ of_fd fd ∷ before =
                ground (arith, next_name-keeps s, keeps.opened t fd) in
              let still : fds r.1 ≡ of_fd fd ∷ before =
                attempt-keeps (generated sys ip_path config) name fd u ∙ open_fd in
              elim (Attempt-cases r.0) [
                | inl (actual, good) ↦
                    let end : here ≡ (ok (record { name = actual; fd = some fd }), r.1) =
                      ground arith in
                    let same = attempt-name (generated sys ip_path config) name fd u actual good in
                    let valid = next_name-valid s name (ap (λ x. x.0) named) in
                    subst (Settled before) (sym end)
                      (fd, refl, still, rw same valid.0, rw same valid.1)
                | inr (e, collision, bad) ↦
                    let end : here ≡ after_setup_error sys ip_path config e collision fd again r.1 =
                      ground arith in
                    subst (Settled before) (sym end) (
                      after_setup_error-Settled e collision fd again before r.1 still
                        (λ v e. try_names-Settled attempts before v e))
              ]
        ]
      ]

  create_tun_queue-Settled :
      (max_name_attempts : ℕ) (s : S)
      → Settled (fds s) (create_tun_queue sys ip_path config max_name_attempts s)
  unfolding create_tun_queue
  create_tun_queue-Settled max_name_attempts s =
      let attempts = if generated sys ip_path config then max_name_attempts else 1 in
      let here = create_tun_queue sys ip_path config max_name_attempts s in
      elim (Bool-cases (is_path ip_path)) [
        | inr bad ↦
            let end : here ≡ (raised (value_error "ip_path"), s) = ground arith in
            subst (Settled (fds s)) (sym end) (λ _. refl)
        | inl good ↦ elim (Bool-cases (leb 1 max_name_attempts)) [
          | inr too_few ↦
              let end : here ≡ (raised (value_error "max_name_attempts"), s) = ground arith in
              subst (Settled (fds s)) (sym end) (λ _. refl)
          | inl positive ↦
              let end : here ≡ try_names sys ip_path config attempts s = ground arith in
              subst (Settled (fds s)) (sym end) (try_names-Settled attempts (fds s) s refl)
        ]
      ]

  -- For system calls that keep their contract: a queue that `create_tun_queue` returns owns a
  -- descriptor, which is the only one that was opened and not closed again, and has a valid
  -- interface name, which is the configured name if there is one.
  pub create_tun_queue_owns :
      (max_name_attempts : ℕ) (s : S) (queue : TunQueue)
      → (create_tun_queue sys ip_path config max_name_attempts s).0 ≡ ok queue
      → ((fd : ℕ) × (queue.fd ≡ some fd)
          × (fds (create_tun_queue sys ip_path config max_name_attempts s).1 ≡ of_fd fd ∷ fds s))
        × (is_tun_name queue.name ≡ true)
        × IsConfigured config.name queue.name
  create_tun_queue_owns max_name_attempts s queue h =
      let settled = create_tun_queue-Settled max_name_attempts s in
      elim (Action-cases (create_tun_queue sys ip_path config max_name_attempts s)) [
        | inr (e, t, bad) ↦ absurd (ground arith)
        | inl (found, t, good) ↦
            let (fd, owns, held, valid, named) = subst (Settled (fds s)) good settled in
            let same : queue ≡ found = ok-injective (sym h ∙ ap (λ r. r.0) good) in
            rw (good, same) ((fd, owns, held), valid, named)
      ]

  -- For system calls that keep their contract: if `create_tun_queue` raises, then every
  -- descriptor that it opened is closed again, unless the error is the TunSetupCleanupError,
  -- which says that a close failed.
  pub create_tun_queue_releases :
      (max_name_attempts : ℕ) (s : S) (e : Error)
      → (create_tun_queue sys ip_path config max_name_attempts s).0 ≡ raised e
      → is_setup_cleanup e ≡ false
      → fds (create_tun_queue sys ip_path config max_name_attempts s).1 ≡ fds s
  create_tun_queue_releases max_name_attempts s e h k =
      let settled = create_tun_queue-Settled max_name_attempts s in
      elim (Action-cases (create_tun_queue sys ip_path config max_name_attempts s)) [
        | inl (found, t, good) ↦ absurd (ground arith)
        | inr (e', t, bad) ↦
            let released = subst (Settled (fds s)) bad settled in rw bad (released (ground arith))
      ]

-- The first close calls the closer once, on the descriptor of the queue, and passes its error on;
-- a second close calls nothing.
pub close_queue-twice :
    {S : Type 0} (sys : TunSystem S) (queue : TunQueue) (fd : ℕ) (s : S)
    → queue.fd ≡ some fd
    → let first = close sys (queue, s) in
      (first.0 ≡ (sys.closer fd s).0)
      × (first.1.1 ≡ (sys.closer fd s).1)
      × (close sys first.1 ≡ (ok tt, first.1))
unfolding close
close_queue-twice sys queue fd s h = (ground arith, ground arith, ground arith)
