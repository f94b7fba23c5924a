-- ===== src/Prelude/Results.antt =====
-- Rust's `Result`, with its bind, so that a chain of `?` is a `do` block.
use mathlib.Core.Path.{◌≡◌, refl}
use mathlib.Core.Bool.{Bool, true, false}
use mathlib.Core.Logic.{◌⊎◌, inl, inr}
use mathlib.Core.Option.{Option, none, some}

pub data Result (A E : Type 0) : Type 0 where
  ok : A → Result A E
  err : E → Result A E

infixl 5 ◌>>=◌ ◌>>◌
abbrev pub ◌>>=◌ : {A B E : Type 0} → Result A E → (A → Result B E) → Result B E
ok x >>= k = k x
err e >>= _ = err e

abbrev pub ◌>>◌ : {B E : Type 0} → Result (Unit {0}) E → Result B E → Result B E
r >> next = r >>= λ _. next

-- An early `return Err(e)` under a test.
abbrev pub fail_if : {E : Type 0} → Bool → E → Result (Unit {0}) E
fail_if true e = err e
fail_if false e = ok tt

-- `Option::ok_or`.
abbrev pub ok_or : {A E : Type 0} → Option A → E → Result A E
ok_or none e = err e
ok_or (some a) e = ok a

abbrev pub is_ok : {A E : Type 0} → Result A E → Bool
is_ok (ok _) = true
is_ok (err _) = false

abbrev pub is_some : {A : Type 0} → Option A → Bool
is_some none = false
is_some (some _) = true

-- `Option::unwrap_or`.
abbrev pub unwrap_or : {A : Type 0} → Option A → A → A
unwrap_or none d = d
unwrap_or (some a) d = a

-- The steps of a chain that succeeds have succeeded.
pub steps_of :
    {A B E : Type 0} (r : Result A E) (k : A → Result B E) {last : B}
    → (r >>= k) ≡ ok last
    → (x : A) × (r ≡ ok x) × (k x ≡ ok last)
steps_of (ok x) k done = (x, refl, done)
steps_of (err _) k done = cc

pub Result-cases :
    {A E : Type 0} (r : Result A E) → ((a : A) × (r ≡ ok a)) ⊎ ((e : E) × (r ≡ err e))
Result-cases (ok a) = inl (a, refl)
Result-cases (err e) = inr (e, refl)

-- A chain that succeeds has succeeded at every step.
pub bind-ok :
    {A B E : Type 0} (m : Result A E) (f : A → Result B E) (b : B)
    → (m >>= f) ≡ ok b
    → (a : A) × (m ≡ ok a) × (f a ≡ ok b)
bind-ok (ok a) f b e = (a, refl, e)
bind-ok (err x) f b e = cc

pub then-ok :
    {B E : Type 0} (test : Bool) (x : E) (k : Result B E) (b : B)
    → (fail_if test x >> k) ≡ ok b
    → (test ≡ false) × (k ≡ ok b)
then-ok true x k b e = cc
then-ok false x k b e = (refl, e)

pub ok_injective : {A E : Type 0} (a b : A) → (let r : Result A E = ok a in r) ≡ ok b → a ≡ b
ok_injective a b e = cc e
