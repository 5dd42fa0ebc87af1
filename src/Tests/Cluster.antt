-- ===== src/Tests/Cluster.antt =====
-- A concrete instance of the external code: every node but "" and "gone" exists, a pod's key is its
-- UID, and the filter plugins reject the node "full".
pub mod Assumptions
use mathlib.Core.Path.{subst}
use scheduler_library.Base.{
  ℕ, zero, suc, ◌+◌, ◌-◌, ◌≤◌, ◌<◌, ◌≡◌, refl, sym, String, Bool, true, false, ◌||◌, Option, none,
  some, List, [], ◌∷◌, map, reverse, length, ◌==◌, str_eq, eq_iff, any, arith, if◌then◌else◌,
}
use scheduler_library.Upstream.{
  Prioritized, NodeScores, Kinds, Upstream, Pod, PodInfo, Error, message, Result, ok, err,
}
use scheduler_library.Upstream.Laws.{one, mark, View, Same, Grows, Laws, StatusLaws, Same-refl}

pub record Listing : Type 0 where
  pub listed : String → String → ℕ
  pub marked : String → ℕ
  pub placement : List String

pub data Verdict : Type 0 where
  good broken refused : Verdict

-- A framework is known by the numbers of what it is connected to.
pub record Wiring : Type 0 where
  pub snapshot : ℕ
  pub client : ℕ
  pub cacher : ℕ
  pub extenders : List Bool

abbrev pub a_framework : Wiring
a_framework = record { snapshot = 0; client = 0; cacher = 0; extenders = [] }

abbrev pub kinds : Kinds
kinds = record {
  SpecRest = Unit {0};
  Labels = Unit {0};
  ClaimStatuses = Unit {0};
  Terms = Unit {0};
  Status = Verdict;
  Code = Verdict;
  Diagnosis = List (String × Verdict);
  Node = String;
  Snap = Listing;
  Env = ℕ;
  Framework = Wiring;
  Extender = Bool;
  CycleRef = ℕ;
  Signature = Unit {0};
  PreResult = Unit {0};
}

abbrev pub is_good : Verdict → Bool
is_good good = true
is_good broken = false
is_good refused = false

abbrev pub is_broken : Verdict → Bool
is_broken good = false
is_broken broken = true
is_broken refused = false

abbrev pub is_refused : Verdict → Bool
is_refused good = false
is_refused broken = false
is_refused refused = true

abbrev pub key : Pod kinds → Result kinds String
key p = if str_eq p.uid "" then err (message "empty UID") else ok p.uid

abbrev pub grown : Listing → String → String → Listing
grown s n k = record s { listed = λ m j. s.listed m j + one n k m j }

abbrev pub shrunk : Listing → String → String → Listing
shrunk s n k = record s { listed = λ m j. s.listed m j - one n k m j }

abbrev pub add : Listing → String → PodInfo kinds → Listing
add s n p = grown s n p.pod.uid

unfoldable pub remove : Listing → String → Pod kinds → Option (Error kinds) × Listing
remove s n p =
    if s.listed n p.uid == 0 then (some (message "no such pod"), s) else (none, shrunk s n p.uid)

unfoldable pub assume : Listing → PodInfo kinds → Option (Error kinds) × Listing
assume s p =
    let n = p.pod.spec.node_name in
    let k = p.pod.uid in
    if str_eq k ""
    then (some (message "empty UID"), s)
    else (none, record (grown s n k) { marked = λ j. s.marked j + mark 1 k j })

unfoldable pub forget : Listing → Pod kinds → Option (Error kinds) × Listing
forget s p =
    let n = p.spec.node_name in
    let k = p.uid in
    if s.listed n k == 0 || s.marked k == 0
    then (some (message "pod is not assumed"), s)
    else (none, record (shrunk s n k) { marked = λ j. s.marked j - mark 1 k j })

abbrev pub find : String → Result kinds String
find n = if str_eq n "" || str_eq n "gone" then err (message "node not found") else ok n

abbrev pub find_in : List String → String → Result kinds String
find_in ns n = if any (str_eq n) ns then ok n else err (message "node not in placement")

-- A placement has at most eight nodes.
abbrev pub first : ℕ → List String → List String
first zero ns = []
first (suc k) [] = []
first (suc k) (n ∷ ns) = n ∷ first k ns

abbrev pub count_up : ℕ → ℕ → List ℕ
count_up i zero = []
count_up i (suc n) = i ∷ count_up (i + 1) n

-- Every node has the same score, and the first one is taken.
abbrev pub score : String → NodeScores
score n = record { name = n; scores = []; total_score = 5; randomizer = 0 }

abbrev pub best : List NodeScores → Option String
best [] = none
best (s ∷ ss) = some s.name

-- The one extender likes "n2", and the other one likes both "n2" and "n3".
abbrev pub liked : Bool → Result kinds Prioritized
liked true = ok (record { hosts = ("n2", 3) ∷ []; weight = 2 })
liked false = ok (record { hosts = ("n2", 1) ∷ ("n3", 4) ∷ []; weight = 1 })

abbrev pub cluster : Upstream
cluster = record {
  kinds = kinds;
  get_pod_key = key;
  pod_terms = λ p. ok tt;
  no_claims = tt;
  new_uid = λ e. ("u", e + 1);
  nil_status = good;
  is_success = is_good;
  is_rejected = is_refused;
  code = λ st. st;
  is_error = is_broken;
  unschedulable = refused;
  unresolvable = refused;
  as_error = λ st. message "plugin";
  status_message = λ st. "";
  new_status = λ c ms. c;
  with_error = λ st e. st;
  as_status = λ e. broken;
  new_diagnosis = [];
  set_status = λ d n st. (n, st) ∷ d;
  set_absent_status = λ d st. d;
  set_plugins = λ d ps. d;
  insert_plugin = λ d p. d;
  set_pre_filter_message = λ d m. d;
  add_plugin_status = λ d st. d;
  num_statuses = λ d. length d;
  after_copy = λ d d'. d';
  node_name = λ n. n;
  get = λ s n. find n;
  is_framework_node = λ n. true;
  generation = λ s n. 0;
  set_generation = λ s n g. s;
  node_remove_pod = remove;
  node_add_pod_info = add;
  assume_placement = λ s pl. (none, record s { placement = pl.nodes });
  forget_placement = λ s. record s { placement = [] };
  num_nodes_in_placement = λ s. length (first 8 s.placement);
  list_nodes_in_placement = λ s. ok (first 8 s.placement);
  get_node_in_placement = λ s n. find_in s.placement n;
  assume_pod = assume;
  forget_pod = forget;
  new_cycle_state = λ e. (e, e + 1);
  set_pod_group_cycle = λ e c g. e;
  run_pre_filter = λ s e f c p. (record { result = tt; status = good; plugins = [] }, e);
  all_nodes = λ r. true;
  node_names = λ r. [];
  has_filter_plugins = λ f. true;
  has_score_plugins = λ f. true;
  run_filter = λ s e f c p n. if str_eq n "full" then refused else good;
  run_pre_score = λ s e f c p ns. (good, e);
  run_score = λ s e f c p ns. (map score ns, good, e);
  pop_best = best;
  run_reserve = λ s e f c p n. (good, e);
  run_unreserve = λ s e f c p n. e;
  default_scheduler = "default-scheduler";
  empty_signature = tt;
  get_node_hint = λ s e f c p g k. ("", e);
  store_results = λ e f g h n r k. e;
  opportunistic_batching = false;
  dra_node_allocatable = false;
  extract_claim_statuses = λ e c n. tt;
  piece_order = λ e n. count_up 0 n;
  under_way = λ e i. false;
  extenders = λ f. f.extenders;
  extender_name = λ x. "";
  extender_plugin = "Extender";
  is_interested = λ x p. true;
  is_ignorable = λ x. x;
  is_filter = λ x. false;
  is_prioritizer = λ x. false;
  extender_filter = λ e x p ns. (ok (record { feasible = ns; failed = []; unresolvable = [] }), e);
  extender_prioritize = λ e x p ns. (liked x, e + 1);
  lock_order = λ e xs. reverse xs;
  score_scale = 10;
  random = λ e. (e, e + 1);
}

abbrev pub view : View cluster
view = record { count = λ s n k. s.listed n k; assumed = λ s k. s.marked k }
