-- ===== src/Tests/Planning.antt =====
-- Examples of planning, of rounding and of waiting.
use pktlab.Base.{ℕ, ◌≡◌, refl, Bool, true, false, none, some, [], arith, leb}
use pktlab.Effect.{Action, ok}
use pktlab.Effect.Triple.{Post}
use pktlab.State.{
  DesiredState, ObservedState, ControllerStateValue, DatapathStateValue, plain_desired,
}
use pktlab.State.Reconcile.{build_reconcile_plan, is_noop}
use pktlab.State.Reconcile.Plan.{
  carry_out_all, build_reconcile_plan_converges, IsMet, build_reconcile_plan-IsMet, Rises,
  build_reconcile_plan_order,
}
use pktlab.Util.Time.{wait_until, timed_out}
use pktlab.Util.Time.Waiting.{IsClock, Held, Failed, wait_until_ends}
use pktlab.Tests.{quiet}

abbrev wanted : DesiredState
wanted = plain_desired ControllerStateValue.running false

abbrev seen : ObservedState
seen = record {
  datapath_health = some DatapathStateValue.running;
  applied_rules_version = none;
  dpdkd_pid = some 7;
  effective_dpdk_config = none;
  active_captures = [];
  topology_applied = true;
}

build_reconcile_plan_converges_example :
    is_noop (
      build_reconcile_plan wanted
        (carry_out_all wanted 9 (build_reconcile_plan wanted seen).actions seen))
    ≡ true
build_reconcile_plan_converges_example = build_reconcile_plan_converges wanted seen 9

build_reconcile_plan-IsMet_example :
    IsMet wanted (carry_out_all wanted 9 (build_reconcile_plan wanted seen).actions seen)
build_reconcile_plan-IsMet_example = build_reconcile_plan-IsMet wanted seen 9

build_reconcile_plan_order_example : Rises 0 (build_reconcile_plan wanted seen).actions
build_reconcile_plan_order_example = build_reconcile_plan_order wanted seen

abbrev clock_of_quiet : IsClock quiet (λ w. w)
clock_of_quiet = record {
  reads = λ w. refl;
  advances = λ w. omega arith;
  sleeps = λ n w. omega arith;
}

-- It is three o'clock.
abbrev is_three : Action ℕ Bool
is_three w = (ok (leb 3 w), w)

wait_until_ends_example :
    Post {A = Unit}
      (λ _ w'. Held quiet (λ w. w) clock_of_quiet is_three (λ w. omega arith) w')
      (Failed quiet (λ w. w) clock_of_quiet is_three (λ w. omega arith) 10 (timed_out "three" 10 2))
      (wait_until quiet is_three "three" 10 2 0)
wait_until_ends_example =
    wait_until_ends quiet (λ w. w) clock_of_quiet is_three (λ w. omega arith) "three" 10 2 0
      (omega arith) (omega arith)
