-- ===== src/Tests/Control.antt =====
-- Examples of stopping the controller and of commands that it refuses.
use pktlab.Base.{is_blank, false, ℕ, ◌≡◌, refl, none, some, List, [], ◌∷◌}
use pktlab.Effect.{ok}
use pktlab.Effect.Triple.{Post}
use pktlab.Topology.Manager.{Managed}
use pktlab.Controller.{Plant, Env}
use pktlab.Controller.Runtime.{start, apply_topology, destroy_topology, stop}
use pktlab.Controller.Runtime.Ending.{IsShutDown, IsStopping, stop-IsShutDown}
use pktlab.Controller.Runtime.Starting.{IsStarted, IsUnstarted, start-IsStarted}
use pktlab.Controller.Runtime.Destroying.{IsCleared, IsLive, destroy_topology-IsCleared}
use pktlab.Controller.Runtime.Applying.{Finishes, apply_topology-IsApplied}
use pktlab.Tests.{ascii}
use pktlab.Tests.Wire.{acknowledging, one_by_one, answering, healthy}
use pktlab.Tests.Teardown.{topology, validated}
use pktlab.Tests.Supervision.{still, one_process, busy}

abbrev pub env : Env (List ℕ)
env = record {
  chars = ascii;
  shell = still;
  processes = one_process;
  sockets = one_by_one;
  codec = acknowledging;
  load_topology = λ path w. (ok topology, w);
  validate_topology = λ loaded. ok validated;
}

-- The same with a datapath that answers.
abbrev pub healthy_env : Env (List ℕ)
healthy_env = record env { sockets = answering; codec = healthy }

-- A started controller with an applied topology and a live datapath, and one without a supervisor.
abbrev pub serving : Managed (Plant (List ℕ))
serving = record {
  current = some (record { config_path = "lab.yaml"; validated = validated });
  plant = record { runtime = busy; world = [] };
}

abbrev pub unmanaged : Plant (List ℕ)
unmanaged = record { runtime = record busy { supervisor = none }; world = 3 ∷ [] }

stop-IsShutDown_example :
    Post {A = Unit} (λ _ s'. IsShutDown s') (λ _ s'. IsStopping busy s') (stop env serving)
stop-IsShutDown_example = stop-IsShutDown env serving refl

-- A controller that has not been started.
abbrev pub idle : Plant (List ℕ)
idle = record { runtime = record busy { started = false }; world = 3 ∷ [] }

start-IsStarted_example :
    Post {A = Unit}
      (λ _ p'. IsStarted idle.runtime p')
      (λ _ p'. IsUnstarted idle.runtime p')
      (start env idle)
start-IsStarted_example = start-IsStarted env idle refl

destroy_topology-IsCleared_example :
    Post
      (λ _ s'. (s'.current ≡ none) × IsCleared busy s'.plant)
      (λ _ s'. IsLive busy s'.plant)
      (destroy_topology env serving)
destroy_topology-IsCleared_example = destroy_topology-IsCleared env serving

pub path_is_text : is_blank ascii "lab.yaml" ≡ false
unfolding is_blank
path_is_text = refl

apply_topology-IsApplied_example :
    Finishes env busy "lab.yaml" (apply_topology env "lab.yaml" serving)
apply_topology-IsApplied_example = apply_topology-IsApplied env "lab.yaml" serving path_is_text
