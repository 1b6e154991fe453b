-- ===== src/Base/Effects.antt =====
-- Exceptions as values, and Python code that acts on a state and may raise. The state comes back
-- after a raise too: what was done before stays done.
use Prim.Native.Nat.{ℕ}
use Prim.Native.String.{String}
use mathlib.Core.Bool.{Bool, true, false}
use mathlib.Core.Path.{◌≡◌, refl}
use mathlib.Core.Logic.{◌⊎◌, inl, inr}
use mathlib.Core.List.{List}
use linux_tcp_cc.Base.Compare.{Text}
use linux_tcp_cc.Base.Int.{ℤ}

-- The exceptions of the tools. The text of a message is kept only as a tag that names the raise.
mutual
  pub data Error : Type 0 where
    type_error value_error runtime_error : String → Error
    os_error : ℕ → Error
    timeout_error eof_error broken_pipe file_exists : Error
    unicode_error index_error timeout_expired : Error
    interrupted : Error
    command_failed : ℕ → Error
    protocol_error : String → Error
    operation_error : ℕ → ℤ → Error
    control_error : Error → Error
    runtime_exited : String → Error
    preflight_failed : List Text → Error
    stale_ownership : List Text → Error
    nft_incompatible : Error → Error
    cleanup_error : Failures → Error
    tun_setup_cleanup : Error → Error → Error
    install_rollback : Error → Failures → Error
    startup_rollback : Error → Failures → Error
    runtime_cleanup : Failures → Error
    service_cleanup_only : Failures → Error
    service_cleanup : Error → Failures → Error

  -- A tuple of failures, each with its label.
  pub data Failures : Type 0 where
    nil : Failures
    cons : Text → Error → Failures → Failures

-- `isinstance(error, OSError)`
unfoldable pub is_os_error : Error → Bool
is_os_error (os_error _) = true
is_os_error timeout_error = true
is_os_error broken_pipe = true
is_os_error file_exists = true
is_os_error _ = false

pub data Outcome {ℓ} (A : Type ℓ) : Type ℓ where
  ok : A → Outcome A
  raised : Error → Outcome A

abbrev pub ⊤ : Type 0
⊤ = Unit

abbrev pub Action : Type 0 → Type 0 → Type 0
Action S A = S → Outcome A × S

module _ {S A : Type 0} where
  abbrev pub pure : A → Action S A
  pure a s = (ok a, s)

  abbrev pub throw : Error → Action S A
  throw e s = (raised e, s)

  abbrev pub lift : Outcome A → Action S A
  lift r s = (r, s)

  -- `try: m except BaseException as error: handle error`
  abbrev pub catch : Action S A → (Error → Action S A) → Action S A
  catch m handle s = let (r, t) = m s in elim r [ ok a ↦ (ok a, t) | raised e ↦ handle e t ]

infixl 5 ◌>>=◌ ◌>>◌
abbrev pub ◌>>=◌ : {S A B : Type 0} → Action S A → (A → Action S B) → Action S B
◌>>=◌ m f s = let (r, t) = m s in elim r [ ok a ↦ f a t | raised e ↦ (raised e, t) ]

abbrev pub ◌>>◌ : {S B : Type 0} → Action S ⊤ → Action S B → Action S B
m >> k = m >>= λ _. k

-- `if test: raise error`
abbrev pub raise_if : {S : Type 0} → Bool → Error → Action S ⊤
raise_if true e s = (raised e, s)
raise_if false e s = (ok tt, s)

-- To split on how a call ended, with the state that it left.
pub Action-cases :
    {S A : Type 0} (r : Outcome A × S)
    → ((a : A) × (t : S) × (r ≡ (ok a, t))) ⊎ ((e : Error) × (t : S) × (r ≡ (raised e, t)))
Action-cases (ok a, t) = inl (a, t, refl)
Action-cases (raised e, t) = inr (e, t, refl)

-- `failures.extend(more)`
unfoldable pub extend : Failures → Failures → Failures
extend nil more = more
extend (cons label e rest) more = cons label e (extend rest more)

pub ok-injective : {A : Type 0} {a b : A} → ok a ≡ ok b → a ≡ b
ok-injective h = cc

pub Outcome-cases :
    {A : Type 0} (r : Outcome A) → ((a : A) × (r ≡ ok a)) ⊎ ((e : Error) × (r ≡ raised e))
Outcome-cases (ok a) = inl (a, refl)
Outcome-cases (raised e) = inr (e, refl)
