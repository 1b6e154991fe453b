-- ===== src/Base/Checks.antt =====
-- `do` blocks for code that has no effect but a raise.
use linux_tcp_cc.Base.{
  ◌≡◌, refl, Bool, true, false, Option, none, some, Error, Outcome, ok, raised, ⊤,
}

infixl 5 ◌>>=◌ ◌>>◌
abbrev pub ◌>>=◌ : {A B : Type 0} → Outcome A → (A → Outcome B) → Outcome B
ok a >>= f = f a
raised e >>= f = raised e

abbrev pub ◌>>◌ : {B : Type 0} → Outcome ⊤ → Outcome B → Outcome B
m >> k = m >>= λ _. k

-- `if test: raise error`
abbrev pub reject_if : Bool → Error → Outcome ⊤
reject_if true e = raised e
reject_if false e = ok tt

-- `if not test: raise error`
abbrev pub require : Bool → Error → Outcome ⊤
require true e = ok tt
require false e = raised e

-- `try: value = parse(…)` where a failure is raised as `error`.
abbrev pub or_raise : {A : Type 0} → Option A → Error → Outcome A
or_raise none e = raised e
or_raise (some a) e = ok a

-- What a block that returned went through.
pub bind_ok :
    {A B : Type 0} (m : Outcome A) (f : A → Outcome B) {b : B}
    → m >>= f ≡ ok b
    → (a : A) × (m ≡ ok a) × (f a ≡ ok b)
bind_ok (ok a) f h = (a, refl, h)
bind_ok (raised e) f h = cc
