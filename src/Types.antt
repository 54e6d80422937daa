-- ===== src/Types.antt =====
-- The configuration models of ctrld/pktlab_ctrld/types.py, one record for each pydantic model.
-- A record holds what a validated model holds; the constraints that `Field` declares are predicates
-- or are checked where the code builds a model.
use pktlab.Base.{ℕ, String, Bool, true, false, ◌&&◌, Option, List, leb, ◌==◌, ◌%◌, str_eq, not}

pub data RuleProtocol : Type 0 where
  tcp udp icmp any : RuleProtocol

pub data RuleActionType : Type 0 where
  forward drop count mirror : RuleActionType

pub data PortRole : Type 0 where
  ingress egress : PortRole

abbrev pub role_eq : PortRole → PortRole → Bool
role_eq ingress ingress = true
role_eq egress egress = true
role_eq _ _ = false

pub record RuleMatchModel : Type 0 where
  pub proto : Option RuleProtocol
  pub src_ip : Option String
  pub dst_ip : Option String
  pub src_cidr : Option String
  pub dst_cidr : Option String
  pub src_port : Option ℕ
  pub dst_port : Option ℕ

pub record RuleActionModel : Type 0 where
  pub type : RuleActionType
  pub port : Option String

pub record RuleModel : Type 0 where
  pub id : ℕ
  pub priority : ℕ
  pub match : RuleMatchModel
  pub action : RuleActionModel

pub record RulesetModel : Type 0 where
  pub version : ℕ
  pub default_action : RuleActionModel
  pub entries : List RuleModel

pub record CapturePointModel : Type 0 where
  pub name : String
  pub namespace : String
  pub interface : String

pub record LabModel : Type 0 where
  pub name : String

pub record NamespaceModel : Type 0 where
  pub name : String

pub record LinkModel : Type 0 where
  pub name : String
  pub a : String
  pub b : String
  pub ip_a : Option String
  pub ip_b : Option String

pub record DpdkPortModel : Type 0 where
  pub name : String
  pub namespace : String
  pub role : PortRole

pub record RouteModel : Type 0 where
  pub namespace : String
  pub dst : String
  pub via : String

pub record DpdkProcessConfigModel : Type 0 where
  pub namespace : String
  pub lcores : Option String
  pub hugepages_mb : Option ℕ
  pub burst_size : Option ℕ
  pub rx_queue_size : Option ℕ
  pub tx_queue_size : Option ℕ
  pub mempool_size : Option ℕ

pub record EffectiveDpdkRuntimeModel : Type 0 where
  pub lcores : String
  pub lcore_count : ℕ
  pub hugepage_size_mb : ℕ
  pub hugepages_mb : ℕ
  pub burst_size : ℕ
  pub rx_queue_size : ℕ
  pub tx_queue_size : ℕ
  pub mempool_size : ℕ
  pub port_count : ℕ

-- The constraints that the fields of `EffectiveDpdkRuntimeModel` declare, which its constructor
-- checks.
unfoldable pub fits_effective_model : EffectiveDpdkRuntimeModel → Bool
fits_effective_model m =
    not (str_eq m.lcores "")
    && (leb 1 m.lcore_count
        && ((m.hugepage_size_mb == 2)
            && ((leb 2 m.hugepages_mb && (m.hugepages_mb % 2 == 0))
                && (leb 1 m.burst_size
                    && (leb 1 m.rx_queue_size
                        && (leb 1 m.tx_queue_size
                            && (leb 1 m.mempool_size && leb 1 m.port_count)))))))

pub record ControllerProcessConfigModel : Type 0 where
  pub rest_listen : Option String
  pub metrics_listen : Option String

pub record ProcessesModel : Type 0 where
  pub dpdkd : DpdkProcessConfigModel
  pub ctrld : Option ControllerProcessConfigModel

pub record TopologyConfigModel : Type 0 where
  pub lab : LabModel
  pub processes : ProcessesModel
  pub namespaces : List NamespaceModel
  pub links : List LinkModel
  pub dpdk_ports : List DpdkPortModel
  pub routes : List RouteModel
  pub rules : RulesetModel
  pub capture_points : List CapturePointModel
