-- ===== src/Host/Firewall/Contract.antt =====
-- What a firewall backend promises its client about the resources that the host holds.
use linux_tcp_cc.Base.{
  ◌≡◌, Bool, Option, none, some, Action, true, false, List, ◌∷◌, Text, Error, Outcome, ok, raised,
  Action-cases, inl, inr, arith,
}
use mathlib.Core.Path.{subst}
use linux_tcp_cc.Host.Config.{NftDnatConfig, NftOwnership}
use linux_tcp_cc.Host.Journal.{is_empty}
use linux_tcp_cc.Host.Network.{FirewallDnatLease}
use linux_tcp_cc.Host.Network.Contract.{is_rollback}
use linux_tcp_cc.Host.Firewall.{FirewallBackend, chosen_name}

-- `of_name` is the resource that a lease names; `held` lists the resources, newest first.
pub record Contract {S R : Type 0} (of_name : Text → R) (held : S → List R)
    (firewall : FirewallBackend S) : Type 0 where
  pub inspect_keeps : (s : S) → held (firewall.inspect_ownership s).1 ≡ held s
  pub check_keeps :
      (config : NftDnatConfig) (s : S) → held (firewall.check_compatibility config s).1 ≡ held s
  pub refused :
      (config : NftDnatConfig) (owner : NftOwnership) (s : S) (e : Error)
      → (firewall.install config owner s).0 ≡ raised e
      → is_rollback e ≡ false
      → held (firewall.install config owner s).1 ≡ held s
  pub installed :
      (config : NftDnatConfig) (owner : NftOwnership) (s : S) (lease : FirewallDnatLease S)
      → (firewall.install config owner s).0 ≡ ok lease
      → held (firewall.install config owner s).1 ≡ of_name lease.resource_name ∷ held s
  pub closed :
      (config : NftDnatConfig) (owner : NftOwnership) (s : S) (lease : FirewallDnatLease S) (u : S)
      (rest : List R)
      → (firewall.install config owner s).0 ≡ ok lease
      → held u ≡ of_name lease.resource_name ∷ rest
      → (lease.close u).0 ≡ ok tt
      → held (lease.close u).1 ≡ rest
  pub named :
      (config : NftDnatConfig) (owner : NftOwnership) (s : S) (lease : FirewallDnatLease S)
      → (firewall.install config owner s).0 ≡ ok lease
      → is_empty lease.resource_name ≡ false

module _ {S R : Type 0} (of_name : Text → R) (held : S → List R) where
  -- What an install that began with `before` leaves.
  abbrev pub Leased : List R → Outcome (FirewallDnatLease S) × S → Type 0
  Leased before (ok lease, t) =
      (held t ≡ of_name lease.resource_name ∷ before)
      × (is_empty lease.resource_name ≡ false)
      × ((u : S) (rest : List R)
          → held u ≡ of_name lease.resource_name ∷ rest
          → (lease.close u).0 ≡ ok tt
          → held (lease.close u).1 ≡ rest)
  Leased before (raised e, t) = is_rollback e ≡ false → held t ≡ before

  Leased-ok :
      (before : List R) (r : Outcome (FirewallDnatLease S) × S) (lease : FirewallDnatLease S)
      → r.0 ≡ ok lease
      → Leased before r
      → Leased before (ok lease, r.1)
  Leased-ok before r lease h l = subst (λ o. Leased before (o, r.1)) h l

  Leased-raised :
      (before : List R) (r : Outcome (FirewallDnatLease S) × S) (e : Error)
      → r.0 ≡ raised e
      → Leased before r
      → is_rollback e ≡ false
      → held r.1 ≡ before
  Leased-raised before r e h l = subst (λ o. Leased before (o, r.1)) h l

  pub Leased-Contract :
      (firewall : FirewallBackend S)
      → ((s : S) → held (firewall.inspect_ownership s).1 ≡ held s)
      → ((config : NftDnatConfig) (s : S) → held (firewall.check_compatibility config s).1 ≡ held s)
      → ((config : NftDnatConfig) (owner : NftOwnership) (s : S)
          → Leased (held s) (firewall.install config owner s))
      → Contract of_name held firewall
  Leased-Contract firewall inspect check leased = record {
    inspect_keeps = inspect;
    check_keeps = check;
    refused = λ config owner s e bad.
        Leased-raised (held s) (firewall.install config owner s) e bad (leased config owner s);
    installed = λ config owner s lease good.
        (Leased-ok (held s) (firewall.install config owner s) lease good (leased config owner s)).0;
    closed = λ config owner s lease u rest good.
        (Leased-ok (held s) (firewall.install config owner s) lease good (leased config owner s)).2
          u rest;
    named = λ config owner s lease good.
        (Leased-ok (held s) (firewall.install config owner s) lease good (leased config owner s)).1;
  }

pub chosen_name-valid :
    {S : Type 0} (valid : Text → Bool) (error : Error) (wanted : Option Text)
    (factory : Action S Text) (s : S) {name : Text}
    → (chosen_name valid error wanted factory s).0 ≡ ok name
    → valid name ≡ true
unfolding chosen_name
chosen_name-valid valid error none factory s h = elim (Action-cases (factory s)) [
  | inr (e, t, bad) ↦ absurd (ground arith)
  | inl (name, t, good) ↦ ground arith
]
chosen_name-valid valid error (some name) factory s h = ground arith

pub chosen_name-keeps :
    {S R : Type 0} (held : S → List R) (valid : Text → Bool) (error : Error) (wanted : Option Text)
    (factory : Action S Text) (s : S)
    → held (factory s).1 ≡ held s
    → held (chosen_name valid error wanted factory s).1 ≡ held s
unfolding chosen_name
chosen_name-keeps held valid error none factory s keeps = ground arith
chosen_name-keeps held valid error (some name) factory s keeps = ground arith
