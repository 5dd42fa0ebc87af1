-- ===== src/Framework/Cacher.antt =====
-- `noopAPICacher` of pkg/framework/framework.go. A `chan error` that is open holds the errors that have
-- been sent and not yet received; `select` chooses among the cases that are ready.
use scheduler_library.Base.{
  ◌≡◌, refl, ◌⊎◌, inl, inr, Bool, true, false, Option, none, some, List, [], ◌∷◌,
}

module _ (E : Type 0) where
  pub data Channel : Type 0 where
    nil_channel closed : Channel
    open_with : List (Option E) → Channel

  -- The calls of plugins that the API cacher takes.
  pub data ApiCall : Type 0 where
    patch_pod_status bind_pod : ApiCall

  -- Both make a channel, close it, and return it without an error.
  unfoldable pub accept : ApiCall → Channel × Option E
  accept patch_pod_status = (closed, none)
  accept bind_pod = (closed, none)

  -- A receive, if it does not block: the zero value from a closed channel.
  abbrev pub receive : Channel → Option (Option E)
  receive nil_channel = none
  receive closed = some none
  receive (open_with []) = none
  receive (open_with (e ∷ es)) = some e

  -- `select` on a receive and on `ctx.Done()`, which is ready if the context has an error; with both
  -- ready, the environment chooses. No result: the call blocks.
  abbrev pub select : Bool → Option (Option E) → Option E → Option (Option E)
  select first none none = none
  select first none (some e) = some (some e)
  select first (some r) none = some r
  select true (some r) (some e) = some r
  select false (some r) (some e) = some (some e)

  unfoldable pub wait_on_finish : Bool → Option E → Channel → Option (Option E)
  wait_on_finish first ctx nil_channel = some none
  wait_on_finish first ctx closed = select first (receive closed) ctx
  wait_on_finish first ctx (open_with es) = select first (receive (open_with es)) ctx

  -- A plugin that patches the status of a pod or binds it through the API cacher, and waits for the
  -- call to finish, is never blocked, whatever `select` chooses, and gets either no error or that of
  -- its own context.
  pub wait_on_finish-accept :
      (call : ApiCall) (first : Bool) (ctx : Option E)
      → (r : Option E) × (wait_on_finish first ctx (accept call).0 ≡ some r)
        × ((r ≡ none) ⊎ (r ≡ ctx))
  unfolding wait_on_finish accept
  wait_on_finish-accept patch_pod_status first none = (none, refl, inl refl)
  wait_on_finish-accept patch_pod_status true (some e) = (none, refl, inl refl)
  wait_on_finish-accept patch_pod_status false (some e) = (some e, refl, inr refl)
  wait_on_finish-accept bind_pod first none = (none, refl, inl refl)
  wait_on_finish-accept bind_pod true (some e) = (none, refl, inl refl)
  wait_on_finish-accept bind_pod false (some e) = (some e, refl, inr refl)
