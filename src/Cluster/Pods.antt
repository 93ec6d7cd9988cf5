-- ===== src/Cluster/Pods.antt =====
-- The containers, volumes and metadata of cluster.go.
use cassandra_operator.Base.{
  ℕ, String, ◌<>◌, Option, none, some, List, [], ◌∷◌, ◌++◌, if◌then◌else◌,
}
use cassandra_operator.Base.Text.{show_ℤ}
use cassandra_operator.Base.Assoc.{Assoc, insert}
use cassandra_operator.Platform.{Platform}
use cassandra_operator.Api.{Probe, Rack, storage_volume_name}
use cassandra_operator.Kube.{
  ObjectMeta, EnvVar, value, field_ref, VolumeMount, Volume, empty_dir, config_map, ContainerPort,
  ExecProbe, ResourceRequirements, Container, PersistentVolumeClaim, ConfigMap,
}
use cassandra_operator.Cluster.{Cluster, operator_label}

abbrev pub rack_label : String
rack_label = "rack"

abbrev pub bootstrapper_container_name : String
bootstrapper_container_name = "cassandra-bootstrapper"

-- The loop of objectMetadata: labels[extra[i]] = extra[i + 1]; a last label without a value is dropped.
unfoldable pub add_labels : List String → Assoc String → Assoc String
unfolding insert
add_labels [] labels = labels
add_labels (key ∷ []) labels = labels
add_labels (key ∷ v ∷ extra) labels = add_labels extra (insert key v labels)

unfoldable pub create_probe : Probe → List String → ExecProbe
create_probe probe command = record {
  command = command;
  initial_delay_seconds = probe.initial_delay_seconds;
  period_seconds = probe.period_seconds;
  timeout_seconds = probe.timeout_seconds;
  failure_threshold = probe.failure_threshold;
  success_threshold = probe.success_threshold;
}

-- The probes are those of a definition that CopyInto stored, which has both.
exec_probe : Option Probe → List String → Option ExecProbe
unfolding create_probe
exec_probe none command = none
exec_probe (some probe) command = some (create_probe probe command)

abbrev pub no_dir : String → Volume
no_dir name = record { name = name; source = empty_dir }

abbrev pub mount : String → String → VolumeMount
mount name path = record { name = name; mount_path = path }

abbrev port : String → ℕ → ContainerPort
port name number = record { name = name; container_port = number }

abbrev variable : String → String → EnvVar
variable name v = record { name = name; value = value v }

module _ {P : Platform} where
  unfoldable pub object_metadata : Cluster P → String → List String → ObjectMeta
  unfolding add_labels
  object_metadata c name extra_labels = record {
    name = name;
    namespace = c.definition.namespace;
    labels = add_labels extra_labels ((operator_label, c.definition.name) ∷ []);
  }

  unfoldable pub custom_config_map_volume_name : Cluster P → String
  custom_config_map_volume_name c = "cassandra-custom-config-" <> c.definition.name

  unfoldable pub create_custom_config_volume_mount : Cluster P → VolumeMount
  unfolding custom_config_map_volume_name
  create_custom_config_volume_mount c = mount (custom_config_map_volume_name c) "/custom-config"

  unfoldable pub create_config_map_volume : Cluster P → ConfigMap → Volume
  unfolding custom_config_map_volume_name
  create_config_map_volume c cm = record {
    name = custom_config_map_volume_name c;
    source = config_map cm.name;
  }

  unfoldable pub create_resource_requirements : Cluster P → ResourceRequirements P
  create_resource_requirements c = record {
    requests = ("cpu", c.definition.spec.pod.cpu) ∷ ("memory", c.definition.spec.pod.memory) ∷ [];
    limits = ("memory", c.definition.spec.pod.memory) ∷ [];
  }

  unfoldable pub create_volume_mounts : Cluster P → List VolumeMount
  unfolding storage_volume_name
  create_volume_mounts c =
      mount (storage_volume_name c.definition) "/var/lib/cassandra"
      ∷ mount "configuration" "/etc/cassandra"
      ∷ mount "extra-lib" "/extra-lib"
      ∷ []

  unfoldable pub create_environment_variable_definition : Cluster P → Rack → List EnvVar
  unfolding show_ℤ
  create_environment_variable_definition c rack =
      variable "CLUSTER_NAMESPACE" c.definition.namespace
      ∷ variable "CLUSTER_NAME" c.definition.name
      ∷ variable "CLUSTER_CURRENT_RACK" rack.name
      ∷ variable "CLUSTER_DATA_CENTER" c.definition.spec.dc
      ∷ record { name = "NODE_LISTEN_ADDRESS"; value = field_ref "status.podIP" }
      ∷ variable "POD_CPU_MILLICORES" (show_ℤ (P.milli_value c.definition.spec.pod.cpu))
      ∷ variable "POD_MEMORY_BYTES" (show_ℤ (P.value c.definition.spec.pod.memory))
      ∷ []

  unfoldable pub config_map_volume : Cluster P → Option ConfigMap → List Volume
  unfolding create_config_map_volume
  config_map_volume c none = []
  config_map_volume c (some cm) = create_config_map_volume c cm ∷ []

  unfoldable pub create_pod_volumes : Cluster P → Option ConfigMap → List Volume
  unfolding config_map_volume storage_volume_name
  create_pod_volumes c custom_config_map =
      (no_dir "configuration" ∷ no_dir "extra-lib" ∷ [])
      ++ (config_map_volume c custom_config_map
          ++ (if c.definition.spec.use_empty_dir
              then no_dir (storage_volume_name c.definition) ∷ []
              else []))

  unfoldable pub create_init_config_container : Cluster P → Container P
  unfolding create_resource_requirements
  create_init_config_container c = record {
    name = "init-config";
    image = c.definition.spec.pod.image;
    command = "sh" ∷ "-c" ∷ "cp -vr /etc/cassandra/* /configuration" ∷ [];
    ports = [];
    resources = some (create_resource_requirements c);
    liveness_probe = none;
    readiness_probe = none;
    pre_stop = none;
    env = [];
    volume_mounts = mount "configuration" "/configuration" ∷ [];
  }

  unfoldable pub config_map_mount : Cluster P → Option ConfigMap → List VolumeMount
  unfolding create_custom_config_volume_mount
  config_map_mount c none = []
  config_map_mount c (some cm) = create_custom_config_volume_mount c ∷ []

  unfoldable pub create_cassandra_bootstrapper_container :
      Cluster P → Rack → Option ConfigMap → Container P
  unfolding create_environment_variable_definition create_resource_requirements config_map_mount
  create_cassandra_bootstrapper_container c rack custom_config_map = record {
    name = bootstrapper_container_name;
    image = c.definition.spec.pod.bootstrapper_image;
    command = [];
    ports = [];
    resources = some (create_resource_requirements c);
    liveness_probe = none;
    readiness_probe = none;
    pre_stop = none;
    env = create_environment_variable_definition c rack;
    volume_mounts =
        (mount "configuration" "/configuration" ∷ mount "extra-lib" "/extra-lib" ∷ [])
        ++ config_map_mount c custom_config_map;
  }

  unfoldable pub create_cassandra_container : Cluster P → Container P
  unfolding create_resource_requirements create_volume_mounts exec_probe
  create_cassandra_container c = record {
    name = "cassandra";
    image = c.definition.spec.pod.image;
    command = [];
    ports =
        port "internode" 7000
        ∷ port "jmx-exporter" 7070
        ∷ port "cassandra-jmx" 7199
        ∷ port "jolokia" 7777
        ∷ port "client" 9042
        ∷ [];
    resources = some (create_resource_requirements c);
    liveness_probe =
        exec_probe c.definition.spec.pod.liveness_probe ("/bin/sh" ∷ "-c" ∷ "nodetool info" ∷ []);
    readiness_probe =
        exec_probe c.definition.spec.pod.readiness_probe
          ("/bin/sh" ∷ "-c" ∷ "nodetool status | grep -E \"^UN\\s+${NODE_LISTEN_ADDRESS}\"" ∷ []);
    pre_stop = some ("/bin/sh" ∷ "-c" ∷ "nodetool drain" ∷ []);
    env = variable "EXTRA_CLASSPATH" "/extra-lib/cassandra-seed-provider.jar" ∷ [];
    volume_mounts = create_volume_mounts c;
  }

  unfoldable pub create_persistent_volume_claims : Cluster P → Rack → List (PersistentVolumeClaim P)
  unfolding object_metadata storage_volume_name
  create_persistent_volume_claims c rack =
      if c.definition.spec.use_empty_dir
      then []
      else record {
        metadata =
            object_metadata c (storage_volume_name c.definition)
              (rack_label ∷ rack.name ∷ "app" ∷ c.definition.name ∷ []);
        storage_class_name = rack.storage_class;
        access_modes = "ReadWriteOnce" ∷ [];
        requests = ("storage", c.definition.spec.pod.storage_size) ∷ [];
      }
        ∷ []
