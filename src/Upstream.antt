-- ===== src/Upstream.antt =====
-- The code that the library calls and does not contain, as parameters: k8s.io/kubernetes
-- (cache.Snapshot, framework.Framework, framework.NodeInfo, the parallelizer), k8s.io/api (v1.Pod)
-- and the scheduler extenders. Pods are the fields that the library reads or writes, with
-- everything else kept as an abstract rest. A `*fwk.Status` is abstract, its nil included.
pub mod Results
pub mod Laws
use scheduler_library.Base.{ℕ, String, Bool, Option, List}

-- The external types.
pub record Kinds : Type 1 where
  pub SpecRest : Type 0
  pub Labels : Type 0
  pub ClaimStatuses : Type 0
  pub Terms : Type 0
  pub Status : Type 0
  pub Code : Type 0
  pub Diagnosis : Type 0
  pub Node : Type 0
  pub Snap : Type 0
  pub Env : Type 0
  pub Framework : Type 0
  pub Extender : Type 0
  pub CycleRef : Type 0
  pub Signature : Type 0
  pub PreResult : Type 0

-- `v1.PodSpec`: `rest` is every field that the library does not look at.
pub record PodSpec (K : Kinds) : Type 0 where
  pub node_name : String
  pub scheduler_name : String
  pub rest : K.SpecRest

pub record Pod (K : Kinds) : Type 0 where
  pub name : String
  pub namespace : String
  pub uid : String
  pub labels : K.Labels
  pub spec : PodSpec K
  pub nominated_node_name : String
  pub claim_statuses : K.ClaimStatuses

-- `framework.PodInfo`: the pod and what `NewPodInfo` precomputes from it.
pub record PodInfo (K : Kinds) : Type 0 where
  pub pod : Pod K
  pub terms : K.Terms

-- `fwk.Placement`
pub record Placement (K : Kinds) : Type 0 where
  pub nodes : List K.Node

-- Go errors: `fmt.Errorf` with and without `%w`, `errors.Join`, and the two errors of the
-- scheduler that the code tells apart.
mutual
  pub data Error (K : Kinds) : Type 0 where
    message : String → Error K
    wrap : String → Error K → Error K
    joined : Errors K → Error K
    no_nodes_available : Error K
    fit_error : Pod K → ℕ → K.Diagnosis → Error K

  pub data Errors (K : Kinds) : Type 0 where
    end : Errors K
    also : Error K → Errors K → Errors K

-- A Go result `(value, error)` of which exactly one is meant.
pub data Result (K : Kinds) (A : Type 0) : Type 0 where
  ok : A → Result K A
  err : Error K → Result K A

-- `fwk.NodePluginScores`; a score is the bit pattern of an int64.
pub record NodeScores : Type 0 where
  pub name : String
  pub scores : List (String × ℕ)
  pub total_score : ℕ
  pub randomizer : ℕ

pub record PreFilterReply (K : Kinds) : Type 0 where
  pub result : K.PreResult
  pub status : K.Status
  pub plugins : List String

pub record ExtenderReply (K : Kinds) : Type 0 where
  pub feasible : List K.Node
  pub failed : List (String × String)
  pub unresolvable : List (String × String)

pub record Prioritized : Type 0 where
  pub hosts : List (String × ℕ)
  pub weight : ℕ

-- The external functions. `Env` is the mutable state of everything but the pods and the
-- `cache.Snapshot`: the plugins, the cycle states, the extenders and the random source.
pub record Upstream : Type 1 where
  pub kinds : Kinds
  pub open kinds use *
  -- pods
  pub get_pod_key : Pod kinds → Result kinds String
  pub pod_terms : Pod kinds → Result kinds Terms
  pub no_claims : ClaimStatuses
  pub new_uid : Env → String × Env
  -- statuses and diagnoses
  pub nil_status : Status
  pub is_success : Status → Bool
  pub is_rejected : Status → Bool
  pub code : Status → Code
  pub is_error : Code → Bool
  pub unschedulable : Code
  pub unresolvable : Code
  pub as_error : Status → Error kinds
  pub status_message : Status → String
  pub new_status : Code → List String → Status
  pub with_error : Status → Error kinds → Status
  pub as_status : Error kinds → Status
  pub new_diagnosis : Diagnosis
  pub set_status : Diagnosis → String → Status → Diagnosis
  pub set_absent_status : Diagnosis → Status → Diagnosis
  pub set_plugins : Diagnosis → List String → Diagnosis
  pub insert_plugin : Diagnosis → String → Diagnosis
  pub set_pre_filter_message : Diagnosis → String → Diagnosis
  pub add_plugin_status : Diagnosis → Status → Diagnosis
  pub num_statuses : Diagnosis → ℕ
  -- what the holder of a diagnosis sees after a callee has changed its own copy: the maps are shared
  pub after_copy : Diagnosis → Diagnosis → Diagnosis
  -- cache.Snapshot and framework.NodeInfo
  pub node_name : Node → String
  pub get : Snap → String → Result kinds Node
  pub is_framework_node : Node → Bool
  pub generation : Snap → Node → ℕ
  pub set_generation : Snap → Node → ℕ → Snap
  pub node_remove_pod : Snap → Node → Pod kinds → Option (Error kinds) × Snap
  pub node_add_pod_info : Snap → Node → PodInfo kinds → Snap
  pub assume_placement : Snap → Placement kinds → Option (Error kinds) × Snap
  pub forget_placement : Snap → Snap
  pub num_nodes_in_placement : Snap → ℕ
  pub list_nodes_in_placement : Snap → Result kinds (List Node)
  pub get_node_in_placement : Snap → String → Result kinds Node
  pub assume_pod : Snap → PodInfo kinds → Option (Error kinds) × Snap
  pub forget_pod : Snap → Pod kinds → Option (Error kinds) × Snap
  -- framework.Framework
  pub new_cycle_state : Env → CycleRef × Env
  pub set_pod_group_cycle : Env → CycleRef → CycleRef → Env
  pub run_pre_filter : Snap → Env → Framework → CycleRef → Pod kinds → PreFilterReply kinds × Env
  pub all_nodes : PreResult → Bool
  pub node_names : PreResult → List String
  pub has_filter_plugins : Framework → Bool
  pub has_score_plugins : Framework → Bool
  pub run_filter : Snap → Env → Framework → CycleRef → Pod kinds → Node → Status
  pub run_pre_score : Snap → Env → Framework → CycleRef → Pod kinds → List Node → Status × Env
  pub run_score :
      Snap → Env → Framework → CycleRef → Pod kinds → List Node → List NodeScores × Status × Env
  pub pop_best : List NodeScores → Option String
  pub run_reserve : Snap → Env → Framework → CycleRef → Pod kinds → String → Status × Env
  pub run_unreserve : Snap → Env → Framework → CycleRef → Pod kinds → String → Env
  pub default_scheduler : String
  pub empty_signature : Signature
  pub get_node_hint : Snap → Env → Framework → CycleRef → Pod kinds → Signature → ℕ → String × Env
  pub store_results :
      Env → Framework → Signature → String → String → Option (List NodeScores) → ℕ → Env
  pub opportunistic_batching : Bool
  pub dra_node_allocatable : Bool
  pub extract_claim_statuses : Env → CycleRef → String → ClaimStatuses
  -- parallelize.Parallelizer: the order in which the pieces take effect, and whether a piece was
  -- already under way when the context was cancelled
  pub piece_order : Env → ℕ → List ℕ
  pub under_way : Env → ℕ → Bool
  -- extenders
  pub extenders : Framework → List Extender
  pub extender_name : Extender → String
  pub extender_plugin : String
  pub is_interested : Extender → Pod kinds → Bool
  pub is_ignorable : Extender → Bool
  pub is_filter : Extender → Bool
  pub is_prioritizer : Extender → Bool
  pub extender_filter :
      Env → Extender → Pod kinds → List Node → Result kinds (ExtenderReply kinds) × Env
  pub extender_prioritize : Env → Extender → Pod kinds → List Node → Result kinds Prioritized × Env
  pub lock_order : Env → List Extender → List Extender
  pub score_scale : ℕ
  pub random : Env → ℕ × Env
