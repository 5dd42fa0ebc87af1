-- ===== src/Scheduler/Prioritize/Sums.antt =====
-- The scores of extenders, added up in any order.
use mathlib.Core.List.{foldr, Perm}
use mathlib.Core.List.Perm
use native.Mathlib.Nat.{ℕ_set}
use scheduler_library.Base.{
  ℕ, ◌+◌, ◌%◌, ◌^◌, ◌≡◌, refl, sym, ap, ◌∙◌, inl, inr, String, Option, none, some, List, [], ◌∷◌,
  lookup, insert, lookup-insert, str_eq, eq_iff, arith, Bool-cases, Option-cases, if◌then◌else◌,
}
use scheduler_library.Upstream.{Upstream, Pod, NodeScores, Prioritized, Result, ok, err}
use scheduler_library.Upstream.Results.{Result-cases}
use scheduler_library.Scheduler.Prioritize.{
  Totals, blank, add_score, final_score, add_hosts, run_extenders,
}

module _ (U : Upstream) where
  open U use {kinds, Node, Env, Extender}

  -- What one extender's list gives a node, and what all of them give it.
  unfoldable pub hosts_sum : String → ℕ → List (String × ℕ) → ℕ
  hosts_sum h weight [] = 0
  hosts_sum h weight ((host, score) ∷ hs) =
      let rest = hosts_sum h weight hs in
      if str_eq host h then final_score U score weight + rest else rest

  unfoldable pub reply_sum : String → Result kinds Prioritized → ℕ
  reply_sum h (err e) = 0
  reply_sum h (ok p) = hosts_sum h p.weight p.hosts

  abbrev pub extenders_sum : (Extender → Result kinds Prioritized) → String → List Extender → ℕ
  extenders_sum reply h xs = foldr (λ x n. reply_sum h (reply x) + n) 0 xs

  pub extenders_sum-perm :
      (reply : Extender → Result kinds Prioritized) (h : String) {xs ys : List Extender}
      → Perm xs ys
      → extenders_sum reply h xs ≡ extenders_sum reply h ys
  extenders_sum-perm reply h p =
      Perm.foldr-eq ℕ_set (λ x n. reply_sum h (reply x) + n) (λ a b n. omega arith) p 0

  -- The total of a node in `allNodeExtendersScores`.
  abbrev total_in : Option NodeScores → ℕ
  total_in none = 0
  total_in (some t) = t.total_score

  abbrev pub total_of : String → Totals U → ℕ
  total_of h ts = total_in (lookup h ts)

  abbrev old_in : String → Option NodeScores → NodeScores
  old_in host o = elim o [ none ↦ blank U host | some t ↦ t ]

  abbrev old_of : String → Totals U → NodeScores
  old_of host ts = old_in host (lookup host ts)

  old_total : (host : String) (ts : Totals U) → (old_of host ts).total_score ≡ total_of host ts
  old_total host ts = elim (Option-cases (lookup host ts)) [
    | inl e ↦ ap (λ o. (old_in host o).total_score) e ∙ sym (ap total_in e)
    | inr (t, e) ↦ ap (λ o. (old_in host o).total_score) e ∙ sym (ap total_in e)
  ]

  insert_total :
      (plugin : String) (score : ℕ) (h host : String) (ts : Totals U)
      → total_of h (insert host (add_score U plugin score (old_of host ts)) ts)
        ≡ (if str_eq host h then (total_of host ts + score) % 2 ^ 64 else total_of h ts)
  insert_total plugin score h host ts =
      let v = add_score U plugin score (old_of host ts) in
      ap total_in (lookup-insert h host v ts) ∙ elim (Bool-cases (str_eq host h)) [
        | inr q ↦ rw q refl
        | inl q ↦ rw q (omega (arith, old_total host ts))
      ]

  add_hosts_total :
      (plugin : String) (weight : ℕ) (h : String) (hs : List (String × ℕ)) (ts : Totals U) (n : ℕ)
      → total_of h ts ≡ n % 2 ^ 64
      → total_of h (add_hosts U plugin weight hs ts) ≡ (n + hosts_sum h weight hs) % 2 ^ 64
  unfolding add_hosts hosts_sum
  add_hosts_total plugin weight h [] ts n e = e ∙ ap (λ k. k % 2 ^ 64) (omega arith)
  add_hosts_total plugin weight h ((host, score) ∷ hs) ts n e =
      let value = final_score U score weight in
      let ts' = insert host (add_score U plugin value (old_of host ts)) ts in
      let now : total_of h ts'
          ≡ (if str_eq host h then (total_of host ts + value) % 2 ^ 64 else total_of h ts) =
        insert_total plugin value h host ts in
      elim (Bool-cases (str_eq host h)) [
        | inr q ↦ rw q (add_hosts_total plugin weight h hs ts' n (rw q at now ∙ e))
        | inl q ↦
            let same : host ≡ h = ground (arith, eq_iff host h) in
            let before : total_of host ts ≡ n % 2 ^ 64 = ap (λ k. total_of k ts) same ∙ e in
            let after : total_of h ts' ≡ (n + value) % 2 ^ 64 =
              rw q at now ∙ omega (arith, before) in
            rw q (
              add_hosts_total plugin weight h hs ts' (n + value) after
              ∙ ap (λ k. k % 2 ^ 64) (omega arith))
      ]

  pub run_extenders_total :
      (pod : Pod kinds) (nodes : List Node) (reply : Extender → Result kinds Prioritized)
      (fixed : (env : Env) (x : Extender) → (U.extender_prioritize env x pod nodes).0 ≡ reply x)
      (h : String) (xs : List Extender) (env : Env) (ts : Totals U) (n : ℕ)
      → total_of h ts ≡ n % 2 ^ 64
      → total_of h (run_extenders U env xs pod nodes ts).0 ≡ (n + extenders_sum reply h xs) % 2 ^ 64
  unfolding run_extenders reply_sum
  run_extenders_total pod nodes reply fixed h [] env ts n e = e ∙ ap (λ k. k % 2 ^ 64) (omega arith)
  run_extenders_total pod nodes reply fixed h (x ∷ xs) env ts n e =
      let call = U.extender_prioritize env x pod nodes in
      let now : call.0 ≡ reply x = fixed env x in
      elim (Result-cases (reply x)) [
        | inr (er, q) ↦
            rw (now ∙ q, q, run_extenders)
              (run_extenders_total pod nodes reply fixed h xs call.1 ts n e
                ∙ ap (λ k. k % 2 ^ 64) (omega arith))
        | inl (p, q) ↦
            let ts' = add_hosts U (U.extender_name x) p.weight p.hosts ts in
            rw (now ∙ q, q, run_extenders)
              (run_extenders_total pod nodes reply fixed h xs call.1 ts'
                  (n + hosts_sum h p.weight p.hosts)
                  (add_hosts_total (U.extender_name x) p.weight h p.hosts ts n e)
                ∙ ap (λ k. k % 2 ^ 64) (omega arith))
      ]
