-- ===== src/Profiles/BuildExtenders.antt =====
-- `buildExtenders` of pkg/upstreamsync/framework.go. `NewHTTPExtender` is a parameter.
use scheduler_library.Base.{
  ◌≡◌, refl, sym, ◌∙◌, inl, inr, String, Bool, true, false, Option, none, some, List, [], ◌∷◌, ◌++◌,
  append-nil, append_assoc, str_eq, is_empty, if◌then◌else◌, Bool-cases,
}
use scheduler_library.Upstream.{Upstream, Error, message, Result, ok, err}
use scheduler_library.Upstream.Results.{ok-injective, err-ne-ok}

-- `schedulerapi.Extender`: its managed resources, with their `IgnoredByScheduler`, and the rest.
pub record ExtenderConfig (C : Type 0) : Type 0 where
  pub managed_resources : List (String × Bool)
  pub rest : C

-- The arguments of a plugin: those of NodeResourcesFit, with `IgnoredResources`, or others.
pub data PluginArgs (A : Type 0) : Type 0 where
  node_resources_fit : List String → A → PluginArgs A
  other_args : A → PluginArgs A

-- `PluginConfig` of a profile: the names of the plugins and their arguments.
abbrev pub Profile : Type 0 → Type 0
Profile A = List (String × PluginArgs A)

module _ (U : Upstream) (C A : Type 0)
    (new_http_extender : ExtenderConfig C → Result U.kinds U.Extender) (plugin_name : String) where
  open U use {kinds, Extender}

  abbrev pub ignored : List (String × Bool) → List String
  ignored [] = []
  ignored ((r, true) ∷ rs) = r ∷ ignored rs
  ignored ((r, false) ∷ rs) = ignored rs

  -- The three lists that the first loop fills.
  pub record Built : Type 0 where
    pub plain : List Extender
    pub ignorable : List Extender
    pub resources : List String

  abbrev pub put : Extender → List (String × Bool) → Built → Built
  put x rs b =
      if U.is_ignorable x
      then record {
        plain = b.plain;
        ignorable = b.ignorable ++ (x ∷ []);
        resources = b.resources ++ ignored rs;
      }
      else record {
        plain = b.plain ++ (x ∷ []);
        ignorable = b.ignorable;
        resources = b.resources ++ ignored rs;
      }

  unfoldable pub build_loop : List (ExtenderConfig C) → Built → Result kinds Built
  build_loop [] b = ok b
  build_loop (c ∷ cs) b = elim (new_http_extender c) [
    | err e ↦ err e
    | ok x ↦ build_loop cs (put x c.managed_resources b)
  ]

  -- The loop over the plugin configuration of one profile, up to the plugin.
  abbrev pub set_args : List String → PluginArgs A → Result kinds (PluginArgs A)
  set_args rs (node_resources_fit old a) = ok (node_resources_fit rs a)
  set_args rs (other_args a) = err (message "want args to be of type NodeResourcesFitArgs")

  abbrev pub put_first : String → Result kinds (PluginArgs A) → Profile A → Result kinds (Profile A)
  put_first n (err e) ps = err e
  put_first n (ok a) ps = ok ((n, a) ∷ ps)

  abbrev pub keep_first :
      (String × PluginArgs A) → Result kinds (Profile A) → Result kinds (Profile A)
  keep_first p (err e) = err e
  keep_first p (ok ps) = ok (p ∷ ps)

  unfoldable pub ignore_in : List String → Profile A → Result kinds (Profile A)
  ignore_in rs [] = err (message "can't find NodeResourcesFitArgs in plugin config")
  ignore_in rs ((n, a) ∷ ps) =
      let rest = keep_first (n, a) (ignore_in rs ps) in
      if str_eq n plugin_name then put_first n (set_args rs a) ps else rest

  -- The loop over the profiles, which changes them in place: an error leaves those before it changed.
  abbrev pub and_next :
      Profile A
      → List (Profile A)
      → Result kinds (Profile A)
      → Option (Error kinds) × List (Profile A)
      → Option (Error kinds) × List (Profile A)
  and_next p ps (err e) rest = (some e, p ∷ ps)
  and_next p ps (ok q) (e, qs) = (e, q ∷ qs)

  unfoldable pub ignore_in_all :
      List String → List (Profile A) → Option (Error kinds) × List (Profile A)
  ignore_in_all rs [] = (none, [])
  ignore_in_all rs (p ∷ ps) = and_next p ps (ignore_in rs p) (ignore_in_all rs ps)

  abbrev pub or_error : List Extender → Option (Error kinds) → Result kinds (List Extender)
  or_error xs none = ok xs
  or_error xs (some e) = err e

  abbrev pub finish_build :
      List (Profile A) → Result kinds Built → Result kinds (List Extender) × List (Profile A)
  finish_build ps (err e) = (err e, ps)
  finish_build ps (ok b) =
      let xs = b.plain ++ b.ignorable in
      let changed = ignore_in_all b.resources ps in
      if is_empty b.resources then (ok xs, ps) else (or_error xs changed.0, changed.1)

  unfoldable pub build_extenders :
      List (ExtenderConfig C) → List (Profile A) → Result kinds (List Extender) × List (Profile A)
  build_extenders [] ps = (ok [], ps)
  build_extenders (c ∷ cs) ps =
      finish_build ps (build_loop (c ∷ cs) (record { plain = []; ignorable = []; resources = [] }))

  -- The specification: the extenders in the order of their configurations.
  pub data Made : List (ExtenderConfig C) → List Extender → Type 0 where
    made_none : Made [] []
    made_one :
        (c : ExtenderConfig C) (x : Extender) {cs : List (ExtenderConfig C)} {xs : List Extender}
        → new_http_extender c ≡ ok x
        → Made cs xs
        → Made (c ∷ cs) (x ∷ xs)

  abbrev pub pick : Bool → List Extender → List Extender
  pick b [] = []
  pick true (x ∷ xs) = if U.is_ignorable x then x ∷ pick true xs else pick true xs
  pick false (x ∷ xs) = if U.is_ignorable x then pick false xs else x ∷ pick false xs

  build_loop-pick :
      {cs : List (ExtenderConfig C)} {xs : List Extender} (b : Built)
      → Made cs xs
      → (rs : List String) × (build_loop cs b
          ≡ ok (record {
            plain = b.plain ++ pick false xs;
            ignorable = b.ignorable ++ pick true xs;
            resources = rs;
          }))
  unfolding build_loop
  build_loop-pick b made_none = (b.resources, rw (append-nil b.plain, append-nil b.ignorable) refl)
  build_loop-pick b (made_one c x {xs = xs} q made) = elim (Bool-cases (U.is_ignorable x)) [
    | inl e ↦
        let (rs, h) =
          build_loop-pick
            (record {
              plain = b.plain;
              ignorable = b.ignorable ++ (x ∷ []);
              resources = b.resources ++ ignored c.managed_resources;
            })
            made in
        (rs, rw (q, build_loop, e) (h ∙ rw (append_assoc b.ignorable (x ∷ []) (pick true xs)) refl))
    | inr e ↦
        let (rs, h) =
          build_loop-pick
            (record {
              plain = b.plain ++ (x ∷ []);
              ignorable = b.ignorable;
              resources = b.resources ++ ignored c.managed_resources;
            })
            made in
        (rs, rw (q, build_loop, e) (h ∙ rw (append_assoc b.plain (x ∷ []) (pick false xs)) refl))
  ]

  or_error-ok : (xs ys : List Extender) (e : Option (Error kinds)) → or_error xs e ≡ ok ys → ys ≡ xs
  or_error-ok xs ys none h = ok-injective (sym h)
  or_error-ok xs ys (some e) h = absurd (err-ne-ok h)

  finish_build-ok :
      (ps : List (Profile A)) (b : Built) (ys : List Extender)
      → (finish_build ps (ok b)).0 ≡ ok ys
      → ys ≡ b.plain ++ b.ignorable
  finish_build-ok ps b ys h = elim (Bool-cases (is_empty b.resources)) [
    | inl e ↦ ok-injective (sym (rw e at h))
    | inr e ↦ or_error-ok (b.plain ++ b.ignorable) ys _ (rw e at h)
  ]

  -- If every configuration gives an extender, and `buildExtenders` returns extenders, then these are the
  -- ones that are not ignorable, followed by those that are, both in the order of the configurations.
  pub build_extenders_order :
      (cs : List (ExtenderConfig C)) (ps : List (Profile A)) (xs ys : List Extender)
      → Made cs xs
      → (build_extenders cs ps).0 ≡ ok ys
      → ys ≡ pick false xs ++ pick true xs
  unfolding build_extenders
  build_extenders_order [] ps [] ys made_none h = ok-injective (sym h)
  build_extenders_order [] ps (_ ∷ _) ys made h = elim made [ ]
  build_extenders_order (c ∷ cs) ps xs ys made h =
      let start : Built = record { plain = []; ignorable = []; resources = [] } in
      let (rs, e) = build_loop-pick start made in
      finish_build-ok ps
        (record { plain = pick false xs; ignorable = pick true xs; resources = rs }) ys (rw e at h)
