-- ===== src/Cluster/ConfigMaps/Mounting.antt =====
-- Adding a custom config to a stateful set, and removing it.
use cassandra_operator.Base.{◌==◌, ==_refl, ◌≡◌, refl, false, none, some, arith}
use cassandra_operator.Base.Assoc.{insert, delete}
use cassandra_operator.Base.Text.{code_at, chars, differ_at}
use cassandra_operator.Platform.{Platform}
use cassandra_operator.Api.{Rack, storage_volume_name}
use cassandra_operator.Kube.{ConfigMap}
use cassandra_operator.Cluster.{Cluster}
use cassandra_operator.Cluster.Pods.{
  custom_config_map_volume_name, create_pod_volumes, config_map_volume, config_map_mount,
  create_config_map_volume, create_custom_config_volume_mount,
  create_cassandra_bootstrapper_container, create_init_config_container,
  bootstrapper_container_name,
}
use cassandra_operator.Cluster.Resources.{
  create_stateful_set_for_rack, hash_annotations, config_hash_annotation,
}
use cassandra_operator.Cluster.ConfigMaps.{
  other_volumes, other_mounts, add_custom_config_volume, remove_custom_config_volume,
  unmount_from_bootstrappers, mount_on_bootstrapper,
}

module _ {P : Platform} (c : Cluster P) where
  storage_differs : (storage_volume_name c.definition == custom_config_map_volume_name c) ≡ false
  unfolding storage_volume_name custom_config_map_volume_name code_at chars
  storage_differs =
      differ_at 10 "cassandra-storage-" c.definition.name "cassandra-custom-config-"
        c.definition.name refl refl refl

  configuration_differs : ("configuration" == custom_config_map_volume_name c) ≡ false
  unfolding custom_config_map_volume_name code_at chars
  configuration_differs =
      differ_at 1 "configuration" "" "cassandra-custom-config-" c.definition.name refl refl refl

  extra_lib_differs : ("extra-lib" == custom_config_map_volume_name c) ≡ false
  unfolding custom_config_map_volume_name code_at chars
  extra_lib_differs =
      differ_at 0 "extra-lib" "" "cassandra-custom-config-" c.definition.name refl refl refl

  init_differs : ("init-config" == bootstrapper_container_name) ≡ false
  unfolding ◌==◌
  init_differs = refl

  -- Removing the custom config from a rack's stateful set that was created with one gives the stateful
  -- set that is created without one.
  pub remove-create :
      (rack : Rack) (cm : ConfigMap)
      → remove_custom_config_volume c (create_stateful_set_for_rack c rack (some cm))
        ≡ create_stateful_set_for_rack c rack none
  unfolding remove_custom_config_volume create_stateful_set_for_rack other_volumes other_mounts
      unmount_from_bootstrappers create_pod_volumes config_map_volume create_config_map_volume
      config_map_mount create_custom_config_volume_mount create_cassandra_bootstrapper_container
      create_init_config_container hash_annotations delete
  remove-create rack cm = ground (
    arith,
    storage_differs,
    configuration_differs,
    extra_lib_differs,
    ==_refl (custom_config_map_volume_name c),
    ==_refl config_hash_annotation,
    ==_refl bootstrapper_container_name,
    init_differs,
  )

  -- Adding a custom config to a rack's stateful set that was created without one, and removing it
  -- again, gives the stateful set back.
  pub remove-add :
      (rack : Rack) (cm : ConfigMap)
      → let sts = create_stateful_set_for_rack c rack none in
        remove_custom_config_volume c (add_custom_config_volume c sts cm) ≡ sts
  unfolding remove_custom_config_volume add_custom_config_volume mount_on_bootstrapper insert
      create_stateful_set_for_rack other_volumes other_mounts unmount_from_bootstrappers
      create_pod_volumes config_map_volume create_config_map_volume config_map_mount
      create_custom_config_volume_mount create_cassandra_bootstrapper_container
      create_init_config_container hash_annotations delete
  remove-add rack cm = ground (
    arith,
    storage_differs,
    configuration_differs,
    extra_lib_differs,
    ==_refl (custom_config_map_volume_name c),
    ==_refl config_hash_annotation,
    ==_refl bootstrapper_container_name,
    init_differs,
  )

  -- Where the data does not live in an emptyDir, adding a custom config to a rack's stateful set that
  -- was created without one gives the stateful set that is created with it.
  pub add-create :
      (rack : Rack) (cm : ConfigMap)
      → c.definition.spec.use_empty_dir ≡ false
      → add_custom_config_volume c (create_stateful_set_for_rack c rack none) cm
        ≡ create_stateful_set_for_rack c rack (some cm)
  unfolding add_custom_config_volume mount_on_bootstrapper insert create_stateful_set_for_rack
      other_volumes other_mounts unmount_from_bootstrappers create_pod_volumes config_map_volume
      create_config_map_volume config_map_mount create_custom_config_volume_mount
      create_cassandra_bootstrapper_container create_init_config_container hash_annotations delete
  add-create rack cm h = ground (arith, ==_refl bootstrapper_container_name, init_differs)
