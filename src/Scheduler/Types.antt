-- ===== src/Scheduler/Types.antt =====
-- The types of pkg/upstreamsync/scheduler.go. An `int32` or `int64` is its bit pattern. A function
-- that can panic returns an `Option`: `none` is the panic.
use scheduler_library.Base.{ℕ, String, Bool, ◌||◌, Option, List, any}
use scheduler_library.Upstream.{Upstream, PodInfo, Error}

pub record Scheduler : Type 0 where
  pub current_cycle : ℕ
  pub next_start_node_index : ℕ
  pub num_nodes_to_find : ℕ

abbrev pub new_scheduler : ℕ → ℕ → ℕ → Scheduler
new_scheduler c i n = record { current_cycle = c; next_start_node_index = i; num_nodes_to_find = n }

abbrev pub max_int32 : ℕ
max_int32 = 2147483647

-- `scheduler.ScheduleResult`
pub record ScheduleResult : Type 0 where
  pub suggested_host : String
  pub evaluated_nodes : ℕ
  pub feasible_nodes : ℕ

abbrev pub no_result : ScheduleResult
no_result = record { suggested_host = ""; evaluated_nodes = 0; feasible_nodes = 0 }

module _ (U : Upstream) where
  open U use {kinds, Node, Env, Diagnosis, Framework, CycleRef, Signature, Status}

  -- `pod_ref` is the pointer that `pod_info` was made from.
  pub record PendingPod : Type 0 where
    pub pod_ref : ℕ
    pub pod_info : PodInfo kinds
    pub signature : Signature
    pub cycle_state : CycleRef

  pub record AlgorithmResult : Type 0 where
    pub schedule_result : ScheduleResult
    pub pod : ℕ
    pub status : Status

  abbrev pub has_scoring : Framework → Bool
  has_scoring f = U.has_score_plugins f || any U.is_prioritizer (U.extenders f)

  abbrev pub has_extender_filters : Framework → Bool
  has_extender_filters f = any U.is_filter (U.extenders f)

  -- What the filtering stages return: nodes, diagnosis, node hint and error, and the state that
  -- they leave behind.
  pub record Fit : Type 0 where
    pub nodes : List Node
    pub diagnosis : Diagnosis
    pub hint : String
    pub error : Option (Error kinds)
    pub env : Env
    pub sched : Scheduler
