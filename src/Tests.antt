-- ===== src/Tests.antt =====
-- Concrete values that the tests and the examples of the theorems share.
pub mod Planning
pub mod Sizing
pub mod Wire
pub mod Teardown
pub mod Supervision
pub mod Control
pub mod Validating
pub mod Serving
pub mod Commanding
use pktlab.Base.{
  ℕ, ◌+◌, String, Bool, true, false, ◌&&◌, ◌||◌, Option, none, some, List, [], ◌∷◌, ◌==◌, leb,
  str_eq, CharTable, pos, if◌then◌else◌,
}
use pktlab.Error.{Exn}
use pktlab.Effect.{ok}
use pktlab.Util.{Shell, Completed}
use pktlab.Types.{DpdkProcessConfigModel, EffectiveDpdkRuntimeModel}

-- A table for ASCII that reads the numbers 2 and 5.
abbrev pub ascii : CharTable
ascii = record {
  is_space = λ c. c == 32 || (leb 9 c && leb c 13);
  is_digit = λ c. leb 48 c && leb c 57;
  is_line_break = λ c. c == 10;
  int_of = λ s. if str_eq s "2" then some 2 else if str_eq s "5" then some 5 else none;
}

-- A world that is a clock, in which every command succeeds and takes one tick.
abbrev pub quiet : Shell ℕ
quiet = record {
  run = λ argv w. (ok (record { returncode = pos 0; stdout = ""; stderr = "" }), w + 1);
  monotonic = λ w. (w, w);
  sleep = λ n w. w + n;
  describe = λ e. "failed";
}

abbrev pub plain_request : DpdkProcessConfigModel
plain_request = record {
  namespace = "dp";
  lcores = none;
  hugepages_mb = none;
  burst_size = none;
  rx_queue_size = none;
  tx_queue_size = none;
  mempool_size = none;
}

abbrev pub plain_profile : EffectiveDpdkRuntimeModel
plain_profile = record {
  lcores = "1";
  lcore_count = 1;
  hugepage_size_mb = 2;
  hugepages_mb = 256;
  burst_size = 32;
  rx_queue_size = 256;
  tx_queue_size = 256;
  mempool_size = 4096;
  port_count = 2;
}
