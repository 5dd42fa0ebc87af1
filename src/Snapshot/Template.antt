-- ===== src/Snapshot/Template.antt =====
-- `SchedulePodsByTemplate`, and `createPodFromTemplate` of helpers.go.
pub mod Bound
pub mod DryRun
pub mod Fresh
use scheduler_library.Base.{
  ℕ, zero, suc, ◌+◌, ◌/◌, ◌%◌, String, true, false, Option, some, none, [], ◌∷◌, ◌==◌, str_eq, ◌<>◌,
  if◌then◌else◌,
}
use scheduler_library.Upstream.{Upstream, Pod, PodSpec, Placement}
use scheduler_library.World.{World, update}
use scheduler_library.Snapshot.Types.{ClusterSnapshot, TemplateOptions}
use scheduler_library.Snapshot.Schedule.{Seq, Scheduled, schedule_seq}

abbrev digit : ℕ → String
digit n =
    if n == 0
    then "0"
    else if n == 1
    then "1"
    else if n == 2
    then "2"
    else if n == 3
    then "3"
    else if n == 4
    then "4"
    else if n == 5
    then "5"
    else if n == 6
    then "6"
    else if n == 7
    then "7"
    else if n == 8
    then "8"
    else "9"

-- `%d`, with fuel; a number has at most as many digits as its successor's value.
unfoldable pub decimal_fuel : ℕ → ℕ → String
decimal_fuel zero n = ""
decimal_fuel (suc k) n =
    let more = decimal_fuel k (n / 10) <> digit (n % 10) in
    elim (n / 10 == 0) [ true ↦ digit n | false ↦ more ]

abbrev pub decimal : ℕ → String
decimal n = decimal_fuel (suc n) n

module _ (U : Upstream) where
  open U use {kinds}

  -- `v1.PodTemplateSpec`
  pub record PodTemplate : Type 0 where
    pub name : String
    pub namespace : String
    pub labels : U.Labels
    pub spec : PodSpec kinds

  abbrev or_default : String → String → String
  or_default d s = if str_eq s "" then d else s

  -- The pod of a template; its status is the zero value.
  unfoldable pub pod_of_template : PodTemplate → ℕ → String → Pod kinds
  pod_of_template t i uid = record {
    name = or_default "templated-pod" t.name <> ("-" <> (decimal i <> ("-" <> uid)));
    namespace = or_default "default" t.namespace;
    uid = uid;
    labels = t.labels;
    spec = t.spec;
    nominated_node_name = "";
    claim_statuses = U.no_claims;
  }

  unfoldable pub create_pod_from_template : PodTemplate → ℕ → World U → ℕ × World U
  create_pod_from_template t i w =
      let (uid, env) = U.new_uid w.env in
      let r = w.next_pod in
      (
        r,
        record w { pods = update w.pods r (pod_of_template t i uid); next_pod = r + 1; env = env },
      )

  -- `podIterator` from index `i` on.
  unfoldable pub template_pods : PodTemplate → ℕ → ℕ → Seq U
  template_pods t i zero = []
  template_pods t i (suc n) = create_pod_from_template t i ∷ template_pods t (i + 1) n

  -- A `maxPods` that is not positive is 0 here.
  unfoldable pub schedule_pods_by_template :
      PodTemplate
      → Option (Placement kinds)
      → ℕ
      → TemplateOptions
      → ClusterSnapshot U
      → Option (Scheduled U)
  schedule_pods_by_template t pl max_pods o s =
      if max_pods == 0
      then some (record { results = []; error = none; snapshot = s })
      else schedule_seq U (template_pods t 0 max_pods) pl
          (record { dry_run = o.dry_run; stop_on_failure = true }) s
