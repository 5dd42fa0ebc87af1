-- ===== src/Tests/Scores.antt =====
-- Two extenders that score, in either order.
use scheduler_library.Base.{ℕ, true, false, Option, none, some, List, [], ◌∷◌}
use scheduler_library.Upstream.{NodeScores, Result, ok, err}
use scheduler_library.Scheduler.Prioritize.{prioritize_nodes}
use scheduler_library.Tests.Cluster.{a_framework, cluster, kinds}
use scheduler_library.Tests.Fixture.{a_pod, world}

abbrev run : Option (Result kinds (List NodeScores) × ℕ)
run =
    prioritize_nodes cluster world.snap 0 (true ∷ false ∷ []) a_framework 0 (a_pod "b" "")
      ("n2" ∷ "n3" ∷ [])

abbrev scores_of : Option (Result kinds (List NodeScores) × ℕ) → List NodeScores
scores_of none = []
scores_of (some (err e, env)) = []
scores_of (some (ok rs, env)) = rs

abbrev env_of : Option (Result kinds (List NodeScores) × ℕ) → ℕ
env_of none = 0
env_of (some (r, env)) = env
