-- ===== src/Operator/Status.antt =====
-- cassandra-operator/pkg/operator/status.go and livenessAndReadinessCheck in operator.go: the answers of
-- the operator's HTTP server.
use cassandra_operator.Base.{ℕ, String, ◌<>◌, Option, none, some, Result, ok, err}

-- An http.ResponseWriter: of several statuses the first is sent, and a body without a status is sent
-- with 200.
pub record Response : Type 0 where
  pub status : Option ℕ
  pub body : String

abbrev pub blank : Response
blank = record { status = none; body = "" }

abbrev or_first : ℕ → Option ℕ → Option ℕ
or_first code none = some code
or_first code (some first) = some first

unfoldable pub write_header : ℕ → Response → Response
write_header code r = record r { status = or_first code r.status }

unfoldable pub write : String → Response → Response
write text r = record { status = or_first 200 r.status; body = r.body <> text }

unfoldable pub handle_server_errorf : Response → Response
unfolding write_header write
handle_server_errorf r =
    write "Error while executing check. Please consult logs for details." (write_header 500 r)

-- The page from what json.Marshal gives for the version; after an error no bytes are left to write, and
-- the function goes on.
unfoldable pub status_page : Result String String → Response → Response
unfolding write_header write handle_server_errorf
status_page (ok bytes) r = write bytes (write_header 200 r)
status_page (err e) r = write "" (write_header 200 (handle_server_errorf r))

unfoldable pub liveness_and_readiness_check : Response → Response
unfolding write_header
liveness_and_readiness_check r = write_header 204 r
