-- ===== src/Kube.antt =====
-- The Kubernetes objects that cassandra-operator/pkg/cluster/cluster.go builds, with the fields that
-- it sets or reads.
use cassandra_operator.Base.{String, ℕ, List, Option}
use cassandra_operator.Base.Int.{ℤ}
use cassandra_operator.Base.Assoc.{Assoc}
use cassandra_operator.Platform.{Platform}

pub record ObjectMeta : Type 0 where
  pub name : String
  pub namespace : String
  pub labels : Assoc String

pub data EnvValue : Type 0 where
  value : String → EnvValue
  field_ref : String → EnvValue

pub record EnvVar : Type 0 where
  pub name : String
  pub value : EnvValue

pub record VolumeMount : Type 0 where
  pub name : String
  pub mount_path : String

pub data VolumeSource : Type 0 where
  empty_dir : VolumeSource
  config_map : String → VolumeSource

pub record Volume : Type 0 where
  pub name : String
  pub source : VolumeSource

-- Every port is a TCP port.
pub record ContainerPort : Type 0 where
  pub name : String
  pub container_port : ℕ

-- v1.Probe, with the command of its handler.
pub record ExecProbe : Type 0 where
  pub command : List String
  pub initial_delay_seconds : ℤ
  pub period_seconds : ℤ
  pub timeout_seconds : ℤ
  pub failure_threshold : ℤ
  pub success_threshold : ℤ

pub record ResourceRequirements (P : Platform) : Type 0 where
  pub requests : Assoc P.Quantity
  pub limits : Assoc P.Quantity

-- `pre_stop` is the command of Lifecycle.PreStop.
pub record Container (P : Platform) : Type 0 where
  pub name : String
  pub image : String
  pub command : List String
  pub ports : List ContainerPort
  pub resources : Option (ResourceRequirements P)
  pub liveness_probe : Option ExecProbe
  pub readiness_probe : Option ExecProbe
  pub pre_stop : Option (List String)
  pub env : List EnvVar
  pub volume_mounts : List VolumeMount

-- The labels of the pods that may not share a node, and the node label and the zones to run in.
pub record Affinity : Type 0 where
  pub anti_affinity_labels : Assoc String
  pub topology_key : String
  pub node_key : String
  pub node_values : List String

pub record PodTemplate (P : Platform) : Type 0 where
  pub labels : Assoc String
  pub annotations : Assoc String
  pub service_account_name : String
  pub init_containers : List (Container P)
  pub containers : List (Container P)
  pub volumes : List Volume
  pub affinity : Affinity

pub record PersistentVolumeClaim (P : Platform) : Type 0 where
  pub metadata : ObjectMeta
  pub storage_class_name : String
  pub access_modes : List String
  pub requests : Assoc P.Quantity

pub record StatefulSet (P : Platform) : Type 0 where
  pub metadata : ObjectMeta
  pub match_labels : Assoc String
  pub replicas : ℤ
  pub service_name : String
  pub template : PodTemplate P
  pub volume_claim_templates : List (PersistentVolumeClaim P)

pub record ServicePort : Type 0 where
  pub name : String
  pub port : ℕ
  pub target_port : ℕ

pub record Service : Type 0 where
  pub metadata : ObjectMeta
  pub selector : Assoc String
  pub cluster_ip : String
  pub ports : List ServicePort

-- The three levels of metadata are those of the cron job, its job template and its pod template.
pub record CronJob (P : Platform) : Type 0 where
  pub metadata : ObjectMeta
  pub schedule : String
  pub concurrency_policy : String
  pub job_metadata : ObjectMeta
  pub pod_metadata : ObjectMeta
  pub restart_policy : String
  pub service_account_name : String
  pub containers : List (Container P)

pub record ConfigMap : Type 0 where
  pub name : String
  pub namespace : String
  pub contents : Assoc String
  pub binary_contents : Assoc (List ℤ)
