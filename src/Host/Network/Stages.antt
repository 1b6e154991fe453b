-- ===== src/Host/Network/Stages.antt =====
-- How far the body of the `try` came, and what its handler leaves then.
use linux_tcp_cc.Base.{
  ◌≡◌, ◌≢◌, refl, ap, Bool, true, false, List, [], ◌∷◌, ◌++◌, catch, Text, lit, ⊤, Error, Outcome,
  Action-cases, ok, raised, inl, inr, Action, startup_rollback, arith,
}
use linux_tcp_cc.Host.Journal.{
  Entry, new, OwnershipJournal, Journaled, is_empty, close, run_entries,
}
use linux_tcp_cc.Host.Journal.Laws.{defer_lem, close_ends}
use linux_tcp_cc.Host.Config.{NftOwnership, HostNetworkConfig}
use linux_tcp_cc.Host.Network.{
  TunHandle, FirewallDnatLease, Collaborators, tun_label, dnat_label, register_resource,
  acquire_resources, on_startup_error, unwind, close_lease,
}
use linux_tcp_cc.Host.Network.Contract.{Contract, is_rollback}

is_empty-tun_label : (name : Text) → is_empty (tun_label name) ≡ false
unfolding lit
is_empty-tun_label name = refl

is_empty-dnat_label : (backend_id name : Text) → is_empty (dnat_label backend_id name) ≡ false
unfolding lit
is_empty-dnat_label [] name = refl
is_empty-dnat_label (c ∷ backend_id) name = refl

module _ {S : Type 0} (c : Collaborators S) (config : HostNetworkConfig) where
  -- Whatever error comes out at the end and is not a rollback error, its handler closed the
  -- journal.
  on_startup_error_lem :
      (e : Error) (js : Journaled S)
      → is_rollback e ≡ false
      → on_startup_error c config e js ≡ unwind c config e js
  unfolding on_startup_error
  on_startup_error_lem (startup_rollback a b) js h = cc
  on_startup_error_lem e js h = refl

  on_startup_error-is_rollback :
      (e : Error) (js : Journaled S) {last : Error}
      → (on_startup_error c config e js).0 ≡ raised last
      → is_rollback last ≡ false
      → is_rollback e ≡ false
  unfolding on_startup_error
  on_startup_error-is_rollback (startup_rollback a b) js h k = ground arith
  on_startup_error-is_rollback e js h k = elim (close_ends js) [
    | inl closed ↦ ground arith
    | inr (failures, failed) ↦ absurd (ground arith)
  ]

  abbrev pub Resources : Type 0
  Resources = TunHandle S × FirewallDnatLease S

  abbrev journal_of : List (Entry S) → OwnershipJournal S
  journal_of entries = record { entries = entries; closed = false }

  unwind_empty :
      (e : Error) (closed : Bool) (s : S)
      → (unwind c config {A = Resources} e (record { entries = []; closed = closed }, s)).1.1 ≡ s
  unfolding close run_entries
  unwind_empty e true s = refl
  unwind_empty e false s = refl

  -- A journal with one entry: an error that is not a rollback error means that the entry's
  -- callback was run, and did not raise.
  unwind_one :
      (e : Error) (label : Text) (callback : Action S ⊤) (s : S) {last : Error}
      → (unwind c config {A = Resources} e (journal_of ((label, callback) ∷ []), s)).0 ≡ raised last
      → is_rollback last ≡ false
      → ((callback s).0 ≡ ok tt)
        × ((unwind c config {A = Resources} e (journal_of ((label, callback) ∷ []), s)).1.1
            ≡ (callback s).1)
  unfolding close run_entries
  unwind_one e label callback s h k = ground arith

  register_resource_lem :
      (label : Text) (callback : Action S ⊤) (entries : List (Entry S)) (s : S)
      → is_empty label ≡ false
      → register_resource label callback (journal_of entries, s)
        ≡ (ok tt, (journal_of (entries ++ ((label, callback) ∷ [])), s))
  unfolding register_resource
  register_resource_lem label callback entries s h =
      ground (arith, defer_lem label callback entries s h)

  module _ {R : Type 0} (tun_of : TunHandle S → R) (dnat_of : FirewallDnatLease S → R)
      (live : S → List R) (keeps : Contract tun_of dnat_of live c) (s : S) where
    -- How far the body of the `try` came, and what was held then.
    pub data Reached : Outcome Resources × Journaled S → Type 0 where
      without_tun :
          (e : Error) (t : S)
          → (is_rollback e ≡ false → live t ≡ live s)
          → Reached (raised e, (new, t))
      with_tun :
          (e : Error) (tun : TunHandle S) (t : S)
          → (c.tun_acquirer config.tun s).0 ≡ ok tun
          → (is_rollback e ≡ false → live t ≡ tun_of tun ∷ live s)
          → Reached (raised e, (journal_of ((tun_label tun.name, tun.close) ∷ []), t))
      with_both :
          (tun : TunHandle S) (dnat : FirewallDnatLease S) (owner : NftOwnership) (t u : S)
          → (c.tun_acquirer config.tun s).0 ≡ ok tun
          → (c.dnat_acquirer config.dnat owner t).0 ≡ ok dnat
          → live u ≡ dnat_of dnat ∷ tun_of tun ∷ live s
          → Reached (
            ok (tun, dnat),
            (
              journal_of (
                  (tun_label tun.name, tun.close)
                  ∷ (dnat_label dnat.backend_id dnat.resource_name, dnat.close)
                  ∷ []),
              u,
            ),
          )

    pub acquire_resources-Reached : Reached (acquire_resources c config (new, s))
    unfolding acquire_resources
    acquire_resources-Reached = elim (Action-cases (c.tun_acquirer config.tun s)) [
      | inr (e, t, refused) ↦
          let end : acquire_resources c config (new, s) ≡ (raised e, (new, t)) = ground arith in
          rw end (without_tun e t (λ clean. ground (arith, keeps.tun_refused config.tun s e)))
      | inl (tun, t, acquired) ↦
          let registered =
            register_resource_lem (tun_label tun.name) tun.close [] t
              (is_empty-tun_label tun.name) in
          let held = keeps.tun_acquired config.tun s tun (ap (λ r. r.0) acquired) in
          let j = journal_of ((tun_label tun.name, tun.close) ∷ []) in
          elim (Action-cases (c.identity_factory tun.name t)) [
            | inr (e, u, refused) ↦
                let end : acquire_resources c config (new, s) ≡ (raised e, (j, u)) = ground arith in
                rw end (
                  with_tun e tun u (ap (λ r. r.0) acquired)
                    (λ clean. ground (arith, keeps.identity_keeps tun.name t)))
            | inl (owner, u, owned) ↦ elim (Action-cases (c.dnat_acquirer config.dnat owner u)) [
              | inr (e, v, refused) ↦
                  let end : acquire_resources c config (new, s) ≡ (raised e, (j, v)) =
                    ground arith in
                  rw end (
                    with_tun e tun v (ap (λ r. r.0) acquired) (λ clean. ground (
                      arith,
                      keeps.identity_keeps tun.name t,
                      keeps.dnat_refused config.dnat owner u e,
                    )))
              | inl (dnat, v, installed) ↦
                  let label = dnat_label dnat.backend_id dnat.resource_name in
                  let named = keeps.dnat_named config.dnat owner u dnat (ap (λ r. r.0) installed) in
                  let also =
                    register_resource_lem label dnat.close j.entries v
                      (is_empty-dnat_label dnat.backend_id dnat.resource_name) in
                  let entries : List (Entry S) =
                    (tun_label tun.name, tun.close) ∷ (label, dnat.close) ∷ [] in
                  let end : acquire_resources c config (new, s)
                      ≡ (ok (tun, dnat), (journal_of entries, v)) =
                    ground arith in
                  rw end (
                    with_both tun dnat owner u v (ap (λ r. r.0) acquired) (ap (λ r. r.0) installed)
                      (ground (
                        arith,
                        keeps.identity_keeps tun.name t,
                        keeps.dnat_acquired config.dnat owner u dnat,
                      )))
            ]
          ]
    ]

    -- What the whole `try` statement leaves.
    abbrev pub Settled : Outcome Resources × Journaled S → Type 0
    Settled r = (last : Error) → r.0 ≡ raised last → is_rollback last ≡ false → live r.1.1 ≡ live s

    pub Reached-Settled :
        (r : Outcome Resources × Journaled S)
        → Reached r
        → Settled (catch (λ _. r) (on_startup_error c config) (new, s))
    Reached-Settled _ (without_tun e t held) last h k =
        let js : Journaled S = (new, t) in
        let clean = on_startup_error-is_rollback e js h k in
        ground (arith, held clean, on_startup_error_lem e js clean, unwind_empty e false t)
    Reached-Settled _ (with_tun e tun t acquired held) last h k =
        let js : Journaled S = (journal_of ((tun_label tun.name, tun.close) ∷ []), t) in
        let clean = on_startup_error-is_rollback e js h k in
        ground (
          arith,
          on_startup_error_lem e js clean,
          unwind_one e (tun_label tun.name) tun.close t {last = last},
          keeps.tun_closed config.tun s tun t (live s) acquired (held clean),
        )
    Reached-Settled _ (with_both tun dnat owner t u a d held) last h k = cc

    -- The two resources are held, and a close that does not raise gives both back.
    abbrev pub Owned : Resources → Journaled S → Type 0
    Owned (tun, dnat) js =
        (live js.1 ≡ dnat_of dnat ∷ tun_of tun ∷ live s)
        × ((close_lease js).0 ≡ ok tt → live (close_lease js).1.1 ≡ live s)

    on_startup_error_raises :
        (e : Error) (js : Journaled S) (p : Resources) → (on_startup_error c config e js).0 ≢ ok p
    unfolding on_startup_error
    on_startup_error_raises (startup_rollback a b) js p = ground arith
    on_startup_error_raises e js p = ground arith

    with_both-Owned :
        (tun : TunHandle S) (dnat : FirewallDnatLease S) (owner : NftOwnership) (t u : S)
        → (c.tun_acquirer config.tun s).0 ≡ ok tun
        → (c.dnat_acquirer config.dnat owner t).0 ≡ ok dnat
        → live u ≡ dnat_of dnat ∷ tun_of tun ∷ live s
        → Owned
            (tun, dnat)
            (
              journal_of (
                  (tun_label tun.name, tun.close)
                  ∷ (dnat_label dnat.backend_id dnat.resource_name, dnat.close)
                  ∷ []),
              u,
            )
    unfolding close_lease run_entries
    with_both-Owned tun dnat owner t u a d held =
        let (r, v) = dnat.close u in
        (
          held,
          λ closed. ground (
            arith,
            keeps.dnat_closed config.dnat owner t dnat u (tun_of tun ∷ live s) d held,
            keeps.tun_closed config.tun s tun v (live s) a,
          ),
        )

    pub Reached-Owned :
        (r : Outcome Resources × Journaled S)
        → Reached r
        → (p : Resources) → (catch (λ _. r) (on_startup_error c config) (new, s)).0 ≡ ok p
        → Owned p (catch (λ _. r) (on_startup_error c config) (new, s)).1
    Reached-Owned _ (without_tun e t held) p h = absurd (on_startup_error_raises e (new, t) p h)
    Reached-Owned _ (with_tun e tun t acquired held) p h =
        absurd
          (on_startup_error_raises e (journal_of ((tun_label tun.name, tun.close) ∷ []), t) p h)
    Reached-Owned _ (with_both tun dnat owner t u a d held) p h =
        let same : p ≡ (tun, dnat) = cc in rw same (with_both-Owned tun dnat owner t u a d held)
