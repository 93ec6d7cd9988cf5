-- ===== src/Platform.antt =====
-- What the operator calls and does not implement: Kubernetes' resource.Quantity, the cron parser of
-- robfig/cron, and the JSON encoding and SHA-256 digest behind the config map hash.
use cassandra_operator.Base.{String, Bool, List, Option}
use cassandra_operator.Base.Int.{ℤ}
use cassandra_operator.Base.Assoc.{Assoc}

pub record Platform : Type 1 where
  -- resource.Quantity with IsZero, String, MilliValue, Value, and reflect.DeepEqual at that type
  pub Quantity : Type 0
  pub is_zero : Quantity → Bool
  pub quantity_string : Quantity → String
  pub milli_value : Quantity → ℤ
  pub value : Quantity → ℤ
  pub deep_equal : Quantity → Quantity → Bool
  -- whether cron.Parse accepts the text
  pub cron_parses : String → Bool
  -- json.Marshal of {"name", "data"} and of {"name", "data", "binaryData"}; `none` is its error
  pub marshal : String → Assoc String → Option (Assoc (List ℤ)) → Option String
  -- fmt.Sprintf("%x", sha256.Sum256(data))
  pub sha256_hex : String → String
