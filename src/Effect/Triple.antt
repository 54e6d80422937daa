-- ===== src/Effect/Triple.antt =====
-- What an action establishes when it returns and when it raises, one rule for each way to build
-- an action.
use pktlab.Error.{Exn}
use pktlab.Effect.{Outcome, ok, raised, Action, catch, handle, continue, ◌>>=◌}

-- `Q` of a returned value and the state after it, `E` of an exception and the state after it.
abbrev pub Post {ℓ} :
    {W A : Type ℓ} → (A → W → Type ℓ) → (Exn → W → Type ℓ) → Outcome A × W → Type ℓ
Post Q E (ok a, w) = Q a w
Post Q E (raised e, w) = E e w

module _ {ℓ} {W A B : Type ℓ} (Q : B → W → Type ℓ) (E : Exn → W → Type ℓ) where
  continue-Post :
      (R : A → W → Type ℓ) (f : A → Action W B) (r : Outcome A × W)
      → Post R E r
      → ((a : A) (w : W) → R a w → Post Q E (f a w))
      → Post Q E (continue f r)
  continue-Post R f (ok a, w) h k = k a w h
  continue-Post R f (raised e, w) h k = h

  -- The rule for one step of a `do` block.
  pub bind-Post :
      (R : A → W → Type ℓ) (m : Action W A) (f : A → Action W B) (w : W)
      → Post R E (m w)
      → ((a : A) (w' : W) → R a w' → Post Q E (f a w'))
      → Post Q E ((m >>= f) w)
  bind-Post R m f w h k = continue-Post R f (m w) h k

module _ {ℓ} {W A : Type ℓ} (Q : A → W → Type ℓ) (E : Exn → W → Type ℓ) where
  pub handle-Post :
      (F : Exn → W → Type ℓ) (h : Exn → Action W A) (r : Outcome A × W)
      → Post Q F r
      → ((e : Exn) (w : W) → F e w → Post Q E (h e w))
      → Post Q E (handle h r)
  handle-Post F h (ok a, w) p k = p
  handle-Post F h (raised e, w) p k = k e w p

  -- The rule for a `try`.
  pub catch-Post :
      (F : Exn → W → Type ℓ) (m : Action W A) (h : Exn → Action W A) (w : W)
      → Post Q F (m w)
      → ((e : Exn) (w' : W) → F e w' → Post Q E (h e w'))
      → Post Q E (catch m h w)
  catch-Post F m h w p k = handle-Post F h (m w) p k

  pub Post-weaken :
      (Q' : A → W → Type ℓ) (E' : Exn → W → Type ℓ) (r : Outcome A × W)
      → ((a : A) (w : W) → Q' a w → Q a w)
      → ((e : Exn) (w : W) → E' e w → E e w)
      → Post Q' E' r
      → Post Q E r
  Post-weaken Q' E' (ok a, w) q e h = q a w h
  Post-weaken Q' E' (raised x, w) q e h = e x w h
