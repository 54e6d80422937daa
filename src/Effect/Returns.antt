-- ===== src/Effect/Returns.antt =====
-- What an action returns, when it returns: a rule for each way to build an action.
use pktlab.Base.{Bool, true, false, Option, none, some, on_option, if◌then◌else◌}
use pktlab.Error.{Exn}
use pktlab.Effect.{Outcome, ok, raised, Action, pure, raise, handle, catch, continue, ◌>>=◌}

-- `Q` of the value of an outcome, if it has one.
abbrev pub Holds {ℓ} : {A : Type ℓ} → (A → Type ℓ) → Outcome A → Type ℓ
Holds Q (ok a) = Q a
Holds Q (raised e) = Unit

weaken-Holds {ℓ} :
    {A : Type ℓ} {Q : A → Type ℓ} (P : A → Type ℓ)
    → ((a : A) → P a → Q a)
    → (r : Outcome A) → Holds P r
    → Holds Q r
weaken-Holds P k (ok a) h = k a h
weaken-Holds P k (raised e) h = tt

pub record Returns {ℓ} {W A : Type ℓ} (Q : A → Type ℓ) (m : Action W A) : Type ℓ where
  pub at : (w : W) → Holds Q (m w).0

module _ {ℓ} {W A : Type ℓ} {Q : A → Type ℓ} where
  pub Returns-pure : (a : A) → Q a → Returns {W = W} Q (pure a)
  Returns-pure a q = record { at = λ w. q }

  pub Returns-raise : (e : Exn) → Returns {W = W} Q (raise e)
  Returns-raise e = record { at = λ w. tt }

  pub Returns-if :
      (b : Bool) (m n : Action W A) → Returns Q m → Returns Q n → Returns Q (if b then m else n)
  Returns-if true m n rm rn = rm
  Returns-if false m n rm rn = rn

  pub Returns-on_option :
      {X : Type ℓ} (o : Option X) (m : Action W A) (f : X → Action W A)
      → Returns Q m
      → ((x : X) → Returns Q (f x))
      → Returns Q (on_option o m f)
  Returns-on_option none m f rm rf = rm
  Returns-on_option (some x) m f rm rf = rf x

  pub Returns-weaken :
      {m : Action W A} (P : A → Type ℓ) → ((a : A) → P a → Q a) → Returns P m → Returns Q m
  Returns-weaken {m} P k r = record { at = λ w. weaken-Holds P k (m w).0 (r.at w) }

  handled-Returns :
      (h : Exn → Action W A)
      → ((e : Exn) → Returns Q (h e))
      → (r : Outcome A × W) → Holds Q r.0
      → Holds Q (handle h r).0
  handled-Returns h rh (ok a, w) q = q
  handled-Returns h rh (raised e, w) q = (rh e).at w

  pub Returns-catch :
      (m : Action W A) (h : Exn → Action W A)
      → Returns Q m
      → ((e : Exn) → Returns Q (h e))
      → Returns Q (catch m h)
  Returns-catch m h rm rh = record { at = λ w. handled-Returns h rh (m w) (rm.at w) }

module _ {ℓ} {W A B : Type ℓ} {Q : B → Type ℓ} where
  after-Returns :
      (f : A → Action W B)
      → ((a : A) → Returns Q (f a))
      → (r : Outcome A × W) → Holds Q (continue f r).0
  after-Returns f rf (ok a, w) = (rf a).at w
  after-Returns f rf (raised e, w) = tt

  pub Returns-bind :
      (m : Action W A) (f : A → Action W B) → ((a : A) → Returns Q (f a)) → Returns Q (m >>= f)
  Returns-bind m f rf = record { at = λ w. after-Returns f rf (m w) }

  step-Returns :
      (P : A → Type ℓ) (f : A → Action W B)
      → ((a : A) → P a → Returns Q (f a))
      → (r : Outcome A × W) → Holds P r.0
      → Holds Q (continue f r).0
  step-Returns P f rf (ok a, w) h = (rf a h).at w
  step-Returns P f rf (raised e, w) h = tt

  -- The rule for a step whose value matters later.
  pub Returns-step :
      (P : A → Type ℓ) (m : Action W A) (f : A → Action W B)
      → Returns P m
      → ((a : A) → P a → Returns Q (f a))
      → Returns Q (m >>= f)
  Returns-step P m f rm rf = record { at = λ w. step-Returns P f rf (m w) (rm.at w) }
