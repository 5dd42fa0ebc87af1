-- ===== src/Tests/Fixture.antt =====
-- The state that the runs start from, and their arguments.
use scheduler_library.Base.{
  ◌≡◌, ◌<◌, arith, ℕ, zero, suc, String, Bool, true, false, Option, none, some, List, [], ◌∷◌, ◌==◌,
  str_eq, ◌&&◌, if◌then◌else◌,
}
use scheduler_library.Upstream.{Pod, Placement}
use scheduler_library.World.{World}
use scheduler_library.Snapshot.Types.{ClusterSnapshot, new, SchedulePodsOptions}
use scheduler_library.Session.{Session}
use scheduler_library.Tests.Cluster.{a_framework, cluster, kinds}

abbrev pub a_pod : String → String → Pod kinds
a_pod uid node = record {
  name = uid;
  namespace = "default";
  uid = uid;
  labels = tt;
  spec = record { node_name = node; scheduler_name = ""; rest = tt };
  nominated_node_name = "";
  claim_statuses = tt;
}

-- Pod 0 runs on the node "n1"; all others are pending.
abbrev pub store : ℕ → Pod kinds
store zero = a_pod "a" "n1"
store (suc n) = a_pod "b" ""

abbrev pub listed_once : String → String → ℕ
listed_once n k = if str_eq n "n1" && str_eq k "a" then 1 else 0

abbrev pub world : World cluster
world = record {
  pods = store;
  next_pod = 9;
  snap = record { listed = listed_once; marked = λ k. 0; placement = [] };
  env = 0;
  trackers = λ m. record { added_pods = []; removed_pods = [] };
  next_tracker = 0;
}

abbrev pub snapshot : ClusterSnapshot cluster
snapshot = new cluster world (("default-scheduler", a_framework) ∷ [])

abbrev pub on : List String → Option (Placement kinds)
on ns = some (record { nodes = ns })

abbrev pub plainly : SchedulePodsOptions
plainly = record { dry_run = false; stop_on_failure = false }

abbrev pub dryly : SchedulePodsOptions
dryly = record { dry_run = true; stop_on_failure = false }

abbrev pub whole : Session cluster
whole = record { snapshot = snapshot; handles = [] }

-- How often the pod is listed on the node.
abbrev pub listed_in : String → String → ClusterSnapshot cluster → ℕ
listed_in n k s = s.world.snap.listed n k

abbrev pub after : Option (Session cluster) → (ClusterSnapshot cluster → ℕ) → Option ℕ
after none f = none
after (some s) f = some (f s.snapshot)

-- The pods that are preempted.
abbrev pub pins : ℕ → Bool
pins r = r == 0

pub pins_known : (r : ℕ) → pins r ≡ true → r < 9
pins_known r h = ground arith
