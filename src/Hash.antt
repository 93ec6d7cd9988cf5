-- ===== src/Hash.antt =====
-- cassandra-operator/pkg/operator/hash/configmap_hash.go. The JSON encoding and the SHA-256 digest are
-- the platform's.
use cassandra_operator.Base.{String, Option, none, some, is_empty, if◌then◌else◌}
use cassandra_operator.Platform.{Platform}
use cassandra_operator.Kube.{ConfigMap}

module _ (P : Platform) where
  encoded_or_empty : Option String → String
  encoded_or_empty none = ""
  encoded_or_empty (some text) = text

  unfoldable pub encode_config_map : ConfigMap → String
  unfolding encoded_or_empty
  encode_config_map cm = encoded_or_empty (
      P.marshal cm.name cm.contents
        (if is_empty cm.binary_contents then none else some cm.binary_contents))

  unfoldable pub config_map_hash : Option ConfigMap → String
  unfolding encode_config_map
  config_map_hash none = ""
  config_map_hash (some cm) = P.sha256_hex (encode_config_map cm)
