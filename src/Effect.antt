-- ===== src/Effect.antt =====
-- Python methods as actions: the state comes back beside the result, and beside the exception too,
-- since what was written before a raise stays written.
pub mod Triple
pub mod Keeps
pub mod Returns
use pktlab.Base.{◌≡◌, refl}
use pktlab.Error.{Exn}

pub data Outcome {ℓ} (A : Type ℓ) : Type ℓ where
  ok : A → Outcome A
  raised : Exn → Outcome A

-- A step that may raise and reads no state, then the rest.
abbrev pub and_then {ℓ κ} : {A : Type ℓ} {B : Type κ} → Outcome A → (A → Outcome B) → Outcome B
and_then (ok a) f = f a
and_then (raised e) f = raised e

-- Inversion of a step that did not raise.
pub and_then-eq-ok {ℓ κ} :
    {A : Type ℓ} {B : Type κ} (r : Outcome A) (f : A → Outcome B) {b : B}
    → and_then r f ≡ ok b
    → (a : A) × (r ≡ ok a) × (f a ≡ ok b)
and_then-eq-ok (ok a) f h = (a, refl, h)
and_then-eq-ok (raised e) f h = cc

abbrev pub Action {ℓ} : Type ℓ → Type ℓ → Type ℓ
Action W A = W → Outcome A × W

module _ {ℓ} {W A : Type ℓ} where
  abbrev pub pure : A → Action W A
  pure a w = (ok a, w)

  abbrev pub raise : Exn → Action W A
  raise e w = (raised e, w)

  abbrev pub lift : Outcome A → Action W A
  lift r w = (r, w)

  abbrev pub gets : (W → A) → Action W A
  gets f w = (ok (f w), w)

  -- The `except` part of a `try`, on the result of its body.
  abbrev pub handle : (Exn → Action W A) → Outcome A × W → Outcome A × W
  handle h (ok a, w) = (ok a, w)
  handle h (raised e, w) = h e w

  -- `try: m` with the handler `h`, which re-raises what it does not name.
  abbrev pub catch : Action W A → (Exn → Action W A) → Action W A
  catch m h w = handle h (m w)

abbrev pub modify {ℓ} : {W : Type ℓ} → (W → W) → W → Outcome (Unit {ℓ}) × W
modify f w = (ok tt, f w)

module _ {ℓ} {W A B : Type ℓ} where
  -- The continuation of a `do` block, on the result of its first step.
  abbrev pub continue : (A → Action W B) → Outcome A × W → Outcome B × W
  continue f (ok a, w) = f a w
  continue f (raised e, w) = (raised e, w)

  infixl 5 ◌>>=◌ ◌>>◌
  abbrev pub ◌>>=◌ : Action W A → (A → Action W B) → Action W B
  ◌>>=◌ m f w = continue f (m w)

  abbrev pub ◌>>◌ : Action W A → Action W B → Action W B
  m >> n = m >>= λ _. n
