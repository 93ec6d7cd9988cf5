-- ===== src/Metrics/Gatherer.antt =====
-- The Jolokia client of cassandra-operator/pkg/metrics/metrics.go, and the choice of a node to ask in
-- prometheus.go. Go visits the five attributes in an order of its own; here it is that of the source.
use cassandra_operator.Base.{
  ℕ, String, ◌<>◌, ◌==◌, eqb, none, some, List, [], ◌∷◌, ◌++◌, get_elem?, length, if◌then◌else◌,
  Result, ok, err,
}
use cassandra_operator.Base.Assoc.{Assoc, insert}
use cassandra_operator.Platform.{Platform}
use cassandra_operator.Api.{service_name}
use cassandra_operator.Cluster.{Cluster}
use cassandra_operator.World.{Environment, PodInfo, Response, M, ◌>>=◌, pure, reads}
use cassandra_operator.Metrics.{ClusterStatus}

-- The value of a Jolokia response, given its decoder. An empty body leaves the status at 0.
abbrev jolokia_value : {A : Type 0} → (String → Result String (ℕ × A)) → String → Result String A
jolokia_value decode body =
    if body == "" then err "error response returned by jolokia" else elim (decode body) [
      | err e ↦ err e
      | ok (status, v) ↦ if eqb status 200 then ok v else err "error response returned by jolokia"
    ]

unfoldable pub interpret :
    {A : Type 0} → (String → Result String (ℕ × A)) → Result String Response → Result String A
interpret decode (err e) = err e
interpret decode (ok response) = elim response.body [
  | err e ↦ err e
  | ok body ↦ if eqb response.status_code 200 then jolokia_value decode body else err body
]

unfoldable pub with_ip : List PodInfo → List PodInfo
with_ip [] = []
with_ip (pod ∷ pods) = let rest = with_ip pods in if pod.ip == "" then rest else pod ∷ rest

module _ {P : Platform} {K : Environment P} where
  -- The rest of a function runs only if the call succeeds.
  abbrev pub attempt :
      {A B : Type 0} → M K (Result String A) → (A → M K (Result String B)) → M K (Result String B)
  attempt m f = do r ← m; elim r [ ok a ↦ f a | err e ↦ pure (err e) ]

  abbrev host : Cluster P → Result String (List PodInfo) → M K String
  host c (err e) = pure (service_name c.definition)
  host c (ok pods) = elim (with_ip pods) [
    | [] ↦ pure (service_name c.definition)
    | first ∷ more ↦ (do
      i ← reads (K.random_below (length (first ∷ more)))
      pure (elim (get_elem? (first ∷ more) i) [ some pod ↦ pod.ip | none ↦ first.ip ]))
  ]

  unfoldable pub url_for : Cluster P → M K String
  unfolding with_ip service_name
  url_for c = do
    pods ← reads (K.list_pod_infos c.definition.namespace ("app=" <> c.definition.name))
    name ← host c pods
    pure ("http://" <> (name <> ":7777"))

  unfoldable pub send_request_to_jolokia :
      {A : Type 0} → (String → Result String (ℕ × A)) → String → M K (Result String A)
  unfolding interpret
  send_request_to_jolokia decode url = do r ← reads (K.http_get url); pure (interpret decode r)

  attribute : String → String → M K (Result String (List String))
  unfolding send_request_to_jolokia
  attribute url name =
      send_request_to_jolokia K.decode_values
        (url <> ("/jolokia/read/org.apache.cassandra.db:type=StorageService/" <> name))

  unfoldable pub collect_rack_info :
      String → List String → Assoc String → M K (Result String (Assoc String))
  unfolding send_request_to_jolokia insert
  collect_rack_info url [] racks w = pure (ok racks) w
  collect_rack_info url (ip ∷ ips) racks w =
      let rest = λ (rack : String). collect_rack_info url ips (insert ip rack racks) in
      attempt
        (send_request_to_jolokia K.decode_value
          (url <> ("/jolokia/exec/org.apache.cassandra.db:type=EndpointSnitchInfo/getRack/" <> ip)))
        rest w

  unfoldable pub gather_metrics_for : Cluster P → M K (Result String ClusterStatus)
  unfolding url_for attribute collect_rack_info
  gather_metrics_for c = do
    url ← url_for c
    attempt (attribute url "LiveNodes") λ live.
        attempt (attribute url "UnreachableNodes") λ unreachable.
          attempt (attribute url "JoiningNodes") λ joining.
            attempt (attribute url "LeavingNodes") λ leaving.
              attempt (attribute url "MovingNodes") λ moving. do
                rack_url ← url_for c
                attempt (collect_rack_info rack_url (live ++ unreachable) []) λ racks. pure (
                    ok (record {
                      node_racks = racks;
                      live_nodes = live;
                      unreachable_nodes = unreachable;
                      joining_nodes = joining;
                      leaving_nodes = leaving;
                      moving_nodes = moving;
                    }))
