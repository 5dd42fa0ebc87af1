-- ===== src/ReadonlyClient/NewClient.antt =====
-- `NewReadonlyClient` of pkg/simulator/readonly_client.go. The `rest.Config` and the client made of it
-- are parameters.
use scheduler_library.Base.{◌≡◌, refl, ap, ◌∙◌, Option, none, some, List, [], ◌∷◌}
use scheduler_library.ReadonlyClient.{
  Request, Reply, WritesOnMutating, round_trip, round_trip-keeps,
}

module _ (B R T : Type 0) where
  -- `http.RoundTripper`, of the configuration and around it.
  abbrev pub Transport : Type 0
  Transport = Request B → T → R × T

  abbrev pub Guarded : Type 0
  Guarded = Request B → T → Reply R × T

  -- What a further RoundTripper does with a request: it makes any requests of the one that it stands on,
  -- each after the replies to those before, and replies.
  pub data Layer : Type 0 where
    reply : Reply R → Layer
    ask : Request B → (Reply R → Layer) → Layer

  unfoldable pub run : Guarded → Layer → T → Reply R × T
  run g (reply r) t = (r, t)
  run g (ask q next) t = let (r, t1) = g q t in run g (next r) t1

  -- What client-go makes of configurations. A copied configuration has the same transport. The client
  -- reaches the server through the wrapper; client-go may layer other RoundTrippers on top of it.
  pub record ClientGo : Type 1 where
    pub Config : Type 0
    pub Wrapped : Type 0
    pub Client : Type 0
    pub Failure : Type 0
    pub copy_config : Config → Config
    pub wrap : (Transport → Guarded) → Config → Wrapped
    pub new_for_config : Wrapped → Option Failure × Client
    pub transport_of : Config → Transport
    pub transport_in : Client → Guarded
    pub layers : Client → Request B → Layer
    pub copy_same : (c : Config) → transport_of (copy_config c) ≡ transport_of c
    pub wrap_layered :
        (f : Transport → Guarded) (c : Config) (k : Client)
        → new_for_config (wrap f c) ≡ (none, k)
        → (q : Request B) (t : T) → transport_in k q t ≡ run (f (transport_of c)) (layers k q) t

  -- Any requests of a client, one after the other.
  unfoldable pub sent : Guarded → List (Request B) → T → List (Reply R) × T
  sent g [] t = ([], t)
  sent g (q ∷ qs) t = let (r, t1) = g q t in let (rs, t2) = sent g qs t1 in (r ∷ rs, t2)

  run-keeps :
      (g : Guarded) (l : Layer) (t : T)
      → ((q : Request B) (u : T) → (g q u).1 ≡ u)
      → (run g l t).1 ≡ t
  unfolding run
  run-keeps g (reply r) t keeps = refl
  run-keeps g (ask q next) t keeps = run-keeps g (next (g q t).0) (g q t).1 keeps ∙ keeps q t

  sent-keeps :
      (g : Guarded) (qs : List (Request B)) (t : T)
      → ((q : Request B) (u : T) → (g q u).1 ≡ u)
      → (sent g qs t).1 ≡ t
  unfolding sent
  sent-keeps g [] t keeps = refl
  sent-keeps g (q ∷ qs) t keeps = sent-keeps g qs (g q t).1 keeps ∙ keeps q t

  module _ (G : ClientGo) where
    pub data Outcome : Type 0 where
      nil_config : Outcome
      made : Option G.Failure → G.Client → Outcome

    -- `readonlyRoundTripperFactory` is `round_trip`.
    unfoldable pub new_readonly_client : Option G.Config → Outcome
    new_readonly_client none = nil_config
    new_readonly_client (some c) =
        let (e, k) = G.new_for_config (G.wrap round_trip (G.copy_config c)) in made e k

    abbrev pair_of : G.Client → Outcome → Option G.Failure × G.Client
    pair_of d nil_config = (none, d)
    pair_of d (made e k) = (e, k)

module _ {B R T : Type 0} (G : ClientGo B R T) where
  -- Let the server behind the configuration's transport change its state only on the methods POST, PUT,
  -- PATCH and DELETE, and let `NewReadonlyClient` return a client without an error. Then any requests of
  -- this client leave the server's state alone, whatever other RoundTrippers client-go layers on top of
  -- the wrapper.
  pub new_readonly_client_reads :
      (c : G.Config) (k : G.Client) (qs : List (Request B)) (t : T)
      → new_readonly_client B R T G (some c) ≡ made none k
      → WritesOnMutating (G.transport_of c)
      → (sent B R T (G.transport_in k) qs t).1 ≡ t
  unfolding new_readonly_client
  new_readonly_client_reads c k qs t ran writes = sent-keeps B R T (G.transport_in k) qs t keeps
    where
      client_made : G.new_for_config (G.wrap round_trip (G.copy_config c)) ≡ (none, k)
      client_made = ap (pair_of B R T G k) ran

      guarded : (q : Request B) (u : T) → (round_trip (G.transport_of (G.copy_config c)) q u).1 ≡ u
      guarded q u =
          ap (λ (s : Transport B R T). (round_trip s q u).1) (G.copy_same c)
          ∙ round_trip-keeps (G.transport_of c) q u writes

      keeps : (q : Request B) (u : T) → (G.transport_in k q u).1 ≡ u
      keeps q u =
          ap (λ x. x.1) (G.wrap_layered round_trip (G.copy_config c) k client_made q u)
          ∙ run-keeps B R T _ (G.layers k q) u guarded
