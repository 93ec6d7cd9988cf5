-- ===== src/Client/Clientset.antt =====
-- cassandra-operator/pkg/client/clientset/versioned/clientset.go and
-- typed/cassandra/v1alpha1/cassandra_client.go: how the clients are made from a configuration, with
-- cassandra-operator/pkg/apis/cassandra/register.go, whose names they use.
use mathlib.Core.Path.{subst, sym}
use cassandra_operator.Base.{
  String, ◌==◌, Bool, true, false, Option, none, some, Result, ok, err, ◌≡◌, ◌↔◌, arith,
  if◌then◌else◌, ◌&&◌,
}
use cassandra_operator.Base.Int.{ℤ}

abbrev pub group_name : String
group_name = "core.sky.uk"

abbrev pub version : String
version = "v1alpha1"

-- What client-go gives: rate limiters, which are shared by reference, the type of Config.QPS with its
-- test against zero, serializers, and the constructors of the two kinds of client.
pub record ClientGo : Type 1 where
  pub Limiter : Type 0
  pub Qps : Type 0
  pub positive : Qps → Bool
  pub new_token_bucket_rate_limiter : Qps → ℤ → Limiter
  pub Serializer : Type 0
  pub direct_codec_factory : Serializer
  pub default_kubernetes_user_agent : String
  pub Error : Type 0

-- The fields of rest.Config that the code reads or sets, with a nil rate limiter, group version or
-- serializer as `none`.
pub record Config (G : ClientGo) : Type 0 where
  pub qps : G.Qps
  pub burst : ℤ
  pub rate_limiter : Option G.Limiter
  pub group_version : Option (String × String)
  pub api_path : String
  pub negotiated_serializer : Option G.Serializer
  pub user_agent : String

pub record Constructors (G : ClientGo) : Type 1 where
  pub RestClient : Type 0
  pub DiscoveryClient : Type 0
  pub rest_client_for : Config G → Result G.Error RestClient
  pub new_discovery_client_for_config : Config G → Result G.Error DiscoveryClient

pub record ClientSet {G : ClientGo} (N : Constructors G) : Type 0 where
  pub discovery : N.DiscoveryClient
  pub core_v1alpha1 : N.RestClient

is_nil {ℓ} : {A : Type ℓ} → Option A → Bool
is_nil none = true
is_nil (some a) = false

module _ {G : ClientGo} where
  unfoldable pub set_config_defaults : Config G → Config G
  set_config_defaults config = record config {
    group_version = some (group_name, version);
    api_path = "/apis";
    negotiated_serializer = some G.direct_codec_factory;
    user_agent =
        if config.user_agent == "" then G.default_kubernetes_user_agent else config.user_agent;
  }

  -- The shallow copy that both clients are made from.
  unfoldable pub with_rate_limiter : Config G → Config G
  unfolding is_nil
  with_rate_limiter c =
      if is_nil c.rate_limiter && G.positive c.qps
      then record c { rate_limiter = some (G.new_token_bucket_rate_limiter c.qps c.burst) }
      else c

  -- The rate limiter of a new client set.
  abbrev pub limiter : Config G → Option G.Limiter
  limiter c = elim c.rate_limiter [
    | some l ↦ some l
    | none ↦ elim (G.positive c.qps) [
      | true ↦ some (G.new_token_bucket_rate_limiter c.qps c.burst)
      | false ↦ none
    ]
  ]

  with_rate_limiter-eq :
      (c : Config G) → with_rate_limiter c ≡ record c { rate_limiter = limiter c }
  unfolding with_rate_limiter
  with_rate_limiter-eq c = ground arith

  module _ (N : Constructors G) where
    unfoldable pub new_core_for_config : Config G → Result G.Error N.RestClient
    unfolding set_config_defaults
    new_core_for_config c = N.rest_client_for (set_config_defaults c)

    unfoldable pub with_discovery : Config G → N.RestClient → Result G.Error (ClientSet N)
    with_discovery c client = elim (N.new_discovery_client_for_config c) [
      | err e ↦ err e
      | ok discovery ↦ ok (record { discovery = discovery; core_v1alpha1 = client })
    ]

    -- The two clients from the shallow copy.
    clients_for : Config G → Result G.Error (ClientSet N)
    unfolding new_core_for_config with_discovery
    clients_for c = elim (new_core_for_config c) [
      | err e ↦ err e
      | ok client ↦ with_discovery c client
    ]

    unfoldable pub new_for_config : Config G → Result G.Error (ClientSet N)
    unfolding with_rate_limiter clients_for
    new_for_config c = clients_for (with_rate_limiter c)

    -- NewForConfigOrDie, which panics with the error that it has; it sets no rate limiter.
    unfoldable pub new_for_config_or_die : Config G → Result G.Error (ClientSet N)
    unfolding new_core_for_config with_discovery
    new_for_config_or_die c = elim (new_core_for_config c) [
      | err e ↦ err e
      | ok client ↦ with_discovery c client
    ]

    pub new_for_config_or_die-ok_iff :
        (c : Config G) (cs : ClientSet N)
        → (new_for_config_or_die c ≡ ok cs) ↔ (
            (N.rest_client_for (set_config_defaults c) ≡ ok cs.core_v1alpha1)
            × (N.new_discovery_client_for_config c ≡ ok cs.discovery))
    unfolding new_for_config_or_die
    new_for_config_or_die-ok_iff c cs = ground arith

    clients_for-ok_iff :
        (c : Config G) (cs : ClientSet N)
        → (clients_for c ≡ ok cs) ↔ (
            (N.rest_client_for (set_config_defaults c) ≡ ok cs.core_v1alpha1)
            × (N.new_discovery_client_for_config c ≡ ok cs.discovery))
    unfolding clients_for
    clients_for-ok_iff c cs = ground arith

    -- NewForConfig gives two clients exactly if both constructors do on configurations with one rate
    -- limiter: the caller's, or else a new one if QPS is positive, or else none. Only the client of the
    -- Cassandra resources gets their group and version, the path /apis, the codec of the scheme and, if
    -- the caller names none, the default user agent.
    pub new_for_config-ok_iff :
        (c : Config G) (cs : ClientSet N)
        → (new_for_config c ≡ ok cs) ↔ (
            (N.rest_client_for (record c {
              rate_limiter = limiter c;
              group_version = some ("core.sky.uk", "v1alpha1");
              api_path = "/apis";
              negotiated_serializer = some G.direct_codec_factory;
              user_agent =
                  if c.user_agent == "" then G.default_kubernetes_user_agent else c.user_agent;
            })
              ≡ ok cs.core_v1alpha1)
            × (N.new_discovery_client_for_config (record c { rate_limiter = limiter c })
                ≡ ok cs.discovery))
    unfolding new_for_config set_config_defaults
    new_for_config-ok_iff c cs =
        subst
          (λ x. (clients_for x ≡ ok cs) ↔ (
            (N.rest_client_for (set_config_defaults (record c { rate_limiter = limiter c }))
              ≡ ok cs.core_v1alpha1)
            × (N.new_discovery_client_for_config (record c { rate_limiter = limiter c })
                ≡ ok cs.discovery)))
          (sym (with_rate_limiter-eq c))
          (clients_for-ok_iff (record c { rate_limiter = limiter c }) cs)
