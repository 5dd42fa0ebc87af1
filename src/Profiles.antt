-- ===== src/Profiles.antt =====
-- `ProfileMap` of pkg/upstreamsync/framework.go.
pub mod BuildExtenders
pub mod IgnoredResources
pub mod Platform
pub mod NewProfileMap
use scheduler_library.Base.{String, none, some, List, lookup, str_eq, ◌<>◌, if◌then◌else◌}
use scheduler_library.Upstream.{Upstream, Pod, Result, ok, err, message}

module _ (U : Upstream) where
  open U use {kinds, Framework}

  abbrev pub ProfileMap : Type 0
  ProfileMap = List (String × Framework)

  -- `v1.DefaultSchedulerName`
  abbrev pub default_scheduler_name : String
  default_scheduler_name = U.default_scheduler

  unfoldable pub framework_for_pod : ProfileMap → Pod kinds → Result kinds Framework
  framework_for_pod profiles pod =
      let asked = pod.spec.scheduler_name in
      elim (lookup (if str_eq asked "" then default_scheduler_name else asked) profiles) [
        | none ↦ err (message ("profile not found for scheduler name " <> asked))
        | some f ↦ ok f
      ]
