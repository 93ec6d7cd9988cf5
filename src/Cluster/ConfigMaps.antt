-- ===== src/Cluster/ConfigMaps.antt =====
-- Custom config maps in cluster.go: to which cluster one belongs, and mounting one on the pods of a
-- stateful set.
pub mod Mounting
pub mod Names
use cassandra_operator.Base.{
  String, ◌<>◌, ◌==◌, Bool, false, ◌||◌, some, List, [], ◌∷◌, ◌++◌, map, if◌then◌else◌, Result, ok,
  err,
}
use cassandra_operator.Base.Text.{ends_with, replace_all}
use cassandra_operator.Base.Assoc.{Assoc, insert, delete}
use cassandra_operator.Platform.{Platform}
use cassandra_operator.Api.{custom_config_map_name}
use cassandra_operator.Kube.{Container, ConfigMap, StatefulSet, Volume, VolumeMount}
use cassandra_operator.Hash.{config_map_hash}
use cassandra_operator.Cluster.{Cluster}
use cassandra_operator.Cluster.Pods.{
  bootstrapper_container_name, custom_config_map_volume_name, create_custom_config_volume_mount,
  create_config_map_volume,
}
use cassandra_operator.Cluster.Resources.{config_hash_annotation}

unfoldable pub looks_like_a_cassandra_config_map : ConfigMap → Bool
unfolding ends_with
looks_like_a_cassandra_config_map cm = ends_with cm.name "-config"

-- The error prints the config map's name.
unfoldable pub qualified_cluster_name_for : ConfigMap → Result String String
unfolding looks_like_a_cassandra_config_map replace_all
qualified_cluster_name_for cm =
    if looks_like_a_cassandra_config_map cm
    then ok (cm.namespace <> ("." <> replace_all cm.name "-config" ""))
    else err cm.name

-- The volumes and mounts that go by another name, in order.
unfoldable pub other_volumes : String → List Volume → List Volume
other_volumes name [] = []
other_volumes name (v ∷ vs) =
    let rest = other_volumes name vs in if v.name == name then rest else v ∷ rest

unfoldable pub other_mounts : String → List VolumeMount → List VolumeMount
other_mounts name [] = []
other_mounts name (m ∷ ms) =
    let rest = other_mounts name ms in if m.name == name then rest else m ∷ rest

module _ {P : Platform} where
  unfoldable pub config_map_belongs_to_a_managed_cluster : Assoc (Cluster P) → ConfigMap → Bool
  unfolding custom_config_map_name
  config_map_belongs_to_a_managed_cluster [] cm = false
  config_map_belongs_to_a_managed_cluster ((key, c) ∷ clusters) cm =
      cm.name == custom_config_map_name c.definition
      || config_map_belongs_to_a_managed_cluster clusters cm

  abbrev with_mounts : Container P → List VolumeMount → Container P
  with_mounts container mounts = record container { volume_mounts = mounts }

  mount_on_bootstrapper : VolumeMount → Container P → Container P
  mount_on_bootstrapper m container =
      if container.name == bootstrapper_container_name
      then with_mounts container (container.volume_mounts ++ (m ∷ []))
      else container

  unfoldable pub add_custom_config_volume : Cluster P → StatefulSet P → ConfigMap → StatefulSet P
  unfolding mount_on_bootstrapper config_map_hash create_config_map_volume
      create_custom_config_volume_mount insert
  add_custom_config_volume c sts cm = record sts {
    template = record sts.template {
      annotations =
          insert config_hash_annotation (config_map_hash P (some cm)) sts.template.annotations;
      volumes = sts.template.volumes ++ (create_config_map_volume c cm ∷ []);
      init_containers =
          map (mount_on_bootstrapper (create_custom_config_volume_mount c))
            sts.template.init_containers;
    };
  }

  -- The loop over the init containers. The mounts that are kept pile up from one bootstrapper to the
  -- next, since the slice is not reset.
  unfoldable pub unmount_from_bootstrappers :
      String → List VolumeMount → List (Container P) → List (Container P)
  unfolding other_mounts
  unmount_from_bootstrappers name kept [] = []
  unmount_from_bootstrappers name kept (container ∷ containers) =
      let kept' = kept ++ other_mounts name container.volume_mounts in
      let is_bootstrapper = container.name == bootstrapper_container_name in
      (if is_bootstrapper then with_mounts container kept' else container)
      ∷ unmount_from_bootstrappers name (if is_bootstrapper then kept' else kept) containers

  unfoldable pub remove_custom_config_volume : Cluster P → StatefulSet P → StatefulSet P
  unfolding unmount_from_bootstrappers other_volumes custom_config_map_volume_name delete
  remove_custom_config_volume c sts = record sts {
    template = record sts.template {
      volumes = other_volumes (custom_config_map_volume_name c) sts.template.volumes;
      annotations = delete config_hash_annotation sts.template.annotations;
      init_containers =
          unmount_from_bootstrappers (custom_config_map_volume_name c) []
            sts.template.init_containers;
    };
  }
