-- ===== src/Effect/Keeps.antt =====
-- Invariants of actions: what holds before also holds after, whether the action returns or raises.
-- There is a rule for each way to build an action.
use pktlab.Base.{Bool, true, false, Option, none, some, on_option, if◌then◌else◌}
use pktlab.Error.{Exn}
use pktlab.Effect.Triple.{Post}
use pktlab.Effect.{Outcome, ok, raised, Action, pure, raise, lift, handle, catch, continue, ◌>>=◌}

pub record Keeps {ℓ} {W A : Type ℓ} (P : W → Type ℓ) (m : Action W A) : Type ℓ where
  pub at : (w : W) → P w → P (m w).1

module _ {ℓ} {W A : Type ℓ} {P : W → Type ℓ} where
  pub Keeps-pure : (a : A) → Keeps P (pure a)
  Keeps-pure a = record { at = λ w h. h }

  pub Keeps-raise : (e : Exn) → Keeps {A = A} P (raise e)
  Keeps-raise e = record { at = λ w h. h }

  pub Keeps-lift : (r : Outcome A) → Keeps P (lift r)
  Keeps-lift r = record { at = λ w h. h }

  pub Keeps-if :
      (b : Bool) (m n : Action W A) → Keeps P m → Keeps P n → Keeps P (if b then m else n)
  Keeps-if true m n km kn = km
  Keeps-if false m n km kn = kn

  pub Keeps-on_option :
      {X : Type ℓ} (o : Option X) (m : Action W A) (f : X → Action W A)
      → Keeps P m
      → ((x : X) → Keeps P (f x))
      → Keeps P (on_option o m f)
  Keeps-on_option none m f km kf = km
  Keeps-on_option (some x) m f km kf = kf x

  handled-Keeps :
      (h : Exn → Action W A)
      → ((e : Exn) → Keeps P (h e))
      → (r : Outcome A × W) → P r.1
      → P (handle h r).1
  handled-Keeps h kh (ok a, w) p = p
  handled-Keeps h kh (raised e, w) p = (kh e).at w p

  pub Keeps-catch :
      (m : Action W A) (h : Exn → Action W A)
      → Keeps P m
      → ((e : Exn) → Keeps P (h e))
      → Keeps P (catch m h)
  Keeps-catch m h km kh = record { at = λ w p. handled-Keeps h kh (m w) (km.at w p) }

module _ {ℓ} {W A B : Type ℓ} {P : W → Type ℓ} where
  after-Keeps :
      (f : A → Action W B)
      → ((a : A) → Keeps P (f a))
      → (r : Outcome A × W) → P r.1
      → P (continue f r).1
  after-Keeps f kf (ok a, w) h = (kf a).at w h
  after-Keeps f kf (raised e, w) h = h

  pub Keeps-bind :
      (m : Action W A) (f : A → Action W B)
      → Keeps P m
      → ((a : A) → Keeps P (f a))
      → Keeps P (m >>= f)
  Keeps-bind m f km kf = record { at = λ w h. after-Keeps f kf (m w) (km.at w h) }

-- An invariant as what an action establishes, however it ends.
pub Keeps-Post :
    {W A : Type 0} {P : W → Type 0} (m : Action W A) (w : W)
    → Keeps P m
    → P w
    → Post (λ (_ : A) w'. P w') (λ _ w'. P w') (m w)
Keeps-Post {W} {A} {P} m w k h = go (m w) (k.at w h)
  where
    go : (r : Outcome A × W) → P r.1 → Post (λ (_ : A) w'. P w') (λ _ w'. P w') r
    go (ok a, w') p = p
    go (raised e, w') p = p
