-- ===== src/State/Checks.antt =====
-- The checks of the constructors of the controller's state, ctrld/pktlab_ctrld/state.
use pktlab.Base.{
  ℕ, zero, suc, String, ◌≡◌, refl, false, Option, none, some, CharTable, is_blank, arith,
}
use pktlab.Effect.{ok}
use pktlab.State.{
  DesiredState, CaptureObservation, ObservedState, make_desired, make_capture_observation,
  make_observed, validate_optional_text, validate_optional_positive,
}

-- Text that is given is not blank, and a number that is given is positive.
abbrev IsNamed : CharTable → Option String → Type 0
IsNamed t none = Unit
IsNamed t (some value) = is_blank t value ≡ false

abbrev IsPositive : Option ℕ → Type 0
IsPositive (some zero) = ⊥
IsPositive _ = Unit

validate_optional_text-IsNamed :
    (t : CharTable) (field : String) (o : Option String)
    → validate_optional_text t field o ≡ none
    → IsNamed t o
unfolding validate_optional_text
validate_optional_text-IsNamed t field none h = tt
validate_optional_text-IsNamed t field (some value) h = ground (arith, h)

validate_optional_positive-IsPositive :
    (field : String) (o : Option ℕ) → validate_optional_positive field o ≡ none → IsPositive o
unfolding validate_optional_positive
validate_optional_positive-IsPositive field none h = tt
validate_optional_positive-IsPositive field (some zero) h = ground (arith, h)
validate_optional_positive-IsPositive field (some (suc n)) h = tt

validate_optional_positive-none :
    (field : String) (o : Option ℕ) → IsPositive o → validate_optional_positive field o ≡ none
unfolding validate_optional_positive
validate_optional_positive-none field none h = refl
validate_optional_positive-none field (some zero) h = elim h [ ]
validate_optional_positive-none field (some (suc n)) h = refl

-- A capture observation that is made is the one given, with a namespace, an interface and, where
-- there is one, a positive pid.
pub record IsCapture (t : CharTable) (c made : CaptureObservation) : Type 0 where
  pub same : made ≡ c
  pub has_namespace : is_blank t c.namespace ≡ false
  pub has_interface : is_blank t c.interface ≡ false
  pub is_positive : IsPositive c.pid

make_capture_observation-IsCapture :
    (t : CharTable) (c made : CaptureObservation)
    → make_capture_observation t c ≡ ok made
    → IsCapture t c made
unfolding make_capture_observation
make_capture_observation-IsCapture t c made h = record {
  same = ground (arith, h);
  has_namespace = ground (arith, h);
  has_interface = ground (arith, h);
  is_positive = validate_optional_positive-IsPositive "pid" c.pid (ground (arith, h));
}

-- And a complete one is made.
make_capture_observation-made :
    (t : CharTable) (c : CaptureObservation) → IsCapture t c c → make_capture_observation t c ≡ ok c
unfolding make_capture_observation
make_capture_observation-made t c h =
    let pid = validate_optional_positive-none "pid" c.pid h.is_positive in
    rw (h.has_namespace, h.has_interface, pid) refl

-- A desired state that is made is the one given, with a path and a name that are not blank.
pub record IsDesired (t : CharTable) (d made : DesiredState) : Type 0 where
  pub same : made ≡ d
  pub has_path : IsNamed t d.topology_config_path
  pub has_name : IsNamed t d.topology_name

pub make_desired-IsDesired :
    (t : CharTable) (d made : DesiredState) → make_desired t d ≡ ok made → IsDesired t d made
unfolding make_desired
make_desired-IsDesired t d made h = record {
  same = ground (arith, h);
  has_path =
      validate_optional_text-IsNamed t "topology_config_path" d.topology_config_path
        (ground (arith, h));
  has_name = validate_optional_text-IsNamed t "topology_name" d.topology_name (ground (arith, h));
}

-- An observed state that is made is the one given, with a positive process number.
pub record IsObserved (o made : ObservedState) : Type 0 where
  pub same : made ≡ o
  pub is_positive : IsPositive o.dpdkd_pid

make_observed-IsObserved : (o made : ObservedState) → make_observed o ≡ ok made → IsObserved o made
unfolding make_observed
make_observed-IsObserved o made h = record {
  same = ground (arith, h);
  is_positive = validate_optional_positive-IsPositive "dpdkd_pid" o.dpdkd_pid (ground (arith, h));
}
