-- ===== src/Cluster/Resources.antt =====
-- The stateful set of a rack and the headless service, in cluster.go.
use cassandra_operator.Base.{String, Option, none, some, [], ◌∷◌}
use cassandra_operator.Base.Assoc.{Assoc}
use cassandra_operator.Platform.{Platform}
use cassandra_operator.Api.{Rack, rack_name, node_service_account_name}
use cassandra_operator.Kube.{ConfigMap, StatefulSet, Service}
use cassandra_operator.Hash.{config_map_hash}
use cassandra_operator.Cluster.{Cluster, operator_label}
use cassandra_operator.Cluster.Pods.{
  rack_label, object_metadata, create_pod_volumes, create_init_config_container,
  create_cassandra_bootstrapper_container, create_cassandra_container,
  create_persistent_volume_claims,
}

abbrev pub config_hash_annotation : String
config_hash_annotation = "clusterConfigHash"

unfoldable pub hash_annotations : Platform → Option ConfigMap → Assoc String
unfolding config_map_hash
hash_annotations P none = []
hash_annotations P (some cm) = (config_hash_annotation, config_map_hash P (some cm)) ∷ []

module _ {P : Platform} where
  abbrev pub rack_labels : Cluster P → Rack → Assoc String
  rack_labels c rack =
      (operator_label, c.definition.name)
      ∷ (rack_label, rack.name)
      ∷ ("app", c.definition.name)
      ∷ []

  unfoldable pub create_stateful_set_for_rack : Cluster P → Rack → Option ConfigMap → StatefulSet P
  unfolding hash_annotations object_metadata rack_name create_pod_volumes
      create_init_config_container create_cassandra_bootstrapper_container
      create_cassandra_container create_persistent_volume_claims
  create_stateful_set_for_rack c rack custom_config_map = record {
    metadata = object_metadata c (rack_name c.definition rack) (rack_label ∷ rack.name ∷ []);
    match_labels = rack_labels c rack;
    replicas = rack.replicas;
    service_name = c.definition.name;
    template = record {
      labels = rack_labels c rack;
      annotations = hash_annotations P custom_config_map;
      service_account_name = node_service_account_name;
      init_containers =
          create_init_config_container c
          ∷ create_cassandra_bootstrapper_container c rack custom_config_map
          ∷ [];
      containers = create_cassandra_container c ∷ [];
      volumes = create_pod_volumes c custom_config_map;
      affinity = record {
        anti_affinity_labels = (operator_label, c.definition.name) ∷ [];
        topology_key = "kubernetes.io/hostname";
        node_key = "failure-domain.beta.kubernetes.io/zone";
        node_values = rack.zone ∷ [];
      };
    };
    volume_claim_templates = create_persistent_volume_claims c rack;
  }

  unfoldable pub create_service : Cluster P → Service
  unfolding object_metadata
  create_service c = record {
    metadata = object_metadata c c.definition.name ("app" ∷ c.definition.name ∷ []);
    selector = ("app", c.definition.name) ∷ [];
    cluster_ip = "None";
    ports =
        record { name = "cassandra"; port = 9042; target_port = 9042 }
        ∷ record { name = "jolokia"; port = 7777; target_port = 7777 }
        ∷ [];
  }
