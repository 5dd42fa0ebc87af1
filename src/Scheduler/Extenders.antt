-- ===== src/Scheduler/Extenders.antt =====
-- `findNodesThatPassExtenders`: the extenders are called one after another.
use scheduler_library.Base.{String, List, [], ◌∷◌, lookup, is_some, is_empty, if◌then◌else◌}
use scheduler_library.Upstream.{Upstream, Pod, Result, ok, err}

module _ (U : Upstream) where
  open U use {kinds, Node, Env, Diagnosis, Extender}

  -- The loop over `failedAndUnresolvableMap`.
  unfoldable pub note_unresolvable : List (String × String) → Diagnosis → Diagnosis
  note_unresolvable [] d = d
  note_unresolvable ((n, m) ∷ ms) d =
      note_unresolvable ms (U.set_status d n (U.new_status U.unresolvable (m ∷ [])))

  -- The loop over `failedMap`, which yields to the other map.
  unfoldable pub note_failed :
      List (String × String) → List (String × String) → Diagnosis → Diagnosis
  note_failed first [] d = d
  note_failed first ((n, m) ∷ ms) d = note_failed first ms (
      if is_some (lookup n first)
      then d
      else U.set_status d n (U.new_status U.unschedulable (m ∷ [])))

  abbrev pub Extended : Type 0
  Extended = Result kinds (List Node) × Diagnosis × Env

  unfoldable pub find_nodes_that_pass_extenders :
      Env → List Extender → Pod kinds → List Node → Diagnosis → Extended
  unfolding note_unresolvable note_failed
  find_nodes_that_pass_extenders env [] pod nodes d = (ok nodes, d, env)
  find_nodes_that_pass_extenders env (x ∷ xs) pod nodes d =
      let skip = find_nodes_that_pass_extenders env xs pod nodes d in
      if is_empty nodes
      then (ok nodes, d, env)
      else if U.is_interested x pod
      then (let (r, env') = U.extender_filter env x pod nodes in
          elim r [
            | err e ↦
                let ignored = find_nodes_that_pass_extenders env' xs pod nodes d in
                if U.is_ignorable x then ignored else (err e, d, env')
            | ok reply ↦ find_nodes_that_pass_extenders env' xs pod reply.feasible (
                note_failed reply.unresolvable reply.failed
                  (note_unresolvable reply.unresolvable d))
          ])
      else skip
