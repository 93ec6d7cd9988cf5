-- ===== src/Lib.antt =====
-- The Cassandra operator and its snapshot tool (the Go programs of cassandra-operator and
-- cassandra-snapshot).
--
-- How the program works. The informers of cassandra-operator/pkg/operator/operator.go call back on
-- every change of a Cassandra resource or a config map; a callback dispatches an event to the worker
-- of its key (cassandra-operator/pkg/dispatcher); the worker passes it to the receiver
-- (cassandra-operator/pkg/operator/operations), which
-- plans operations and executes them in order. An operation checks and stores the definition of a
-- cluster (cassandra-operator/pkg/cluster/cluster.go), asks the adjuster for the changes that an
-- update needs, and goes through the accessor (cassandra-operator/pkg/cluster/accessor.go) to
-- Kubernetes. A round of polling asks one node's Jolokia in every online cluster for the state of
-- the ring and sets Prometheus gauges (cassandra-operator/pkg/metrics). The cron jobs that the
-- operator makes run cassandra-snapshot, which takes and removes snapshots with nodetool.
--
-- Which file models which part.
--   Base: Go's strings, maps, slices and wrapping integers, with the tests and lemmas on them.
--   Platform: quantities, the cron parser, JSON and SHA-256, as parameters.
--   Api: cassandra-operator/pkg/apis/cassandra/v1alpha1/types.go.
--     Api.Memory and Api.Copies are zz_generated.deepcopy.go beside it, over an explicit memory.
--   Client: cassandra-operator/pkg/client. Client.Cassandras are the requests of the generated client,
--     Client.Fake its double for tests, Client.Clientset the construction of both clients,
--     Client.Factory and Client.Informers the shared informers, and Client.Lister the reads of
--     their cache. What client-go gives is in the records of Client.Rest, in Tracker and in
--     Indexer.
--   Cluster: cassandra-operator/pkg/cluster/cluster.go. Cluster.Validation holds the checks,
--     Cluster.Definition New and CopyInto; Cluster.Pods, Resources, Jobs and ConfigMaps make the
--     Kubernetes objects of Kube. Cluster.Selectors compares the label selectors with the labels.
--   Hash: cassandra-operator/pkg/operator/hash/configmap_hash.go.
--   Adjuster: cassandra-operator/pkg/operator/operations/adjuster/adjuster.go, with the text of the
--     patches in Adjuster.Patch.
--   World: the operator's memory, Kubernetes behind a record of calls, and the monad of the
--     operations. A request is made and logged by its namespace and contents at once, so that what
--     is logged is what was called. Definitions and clusters live in stores and are shared by
--     address.
--   Accessor: cassandra-operator/pkg/cluster/accessor.go, and in Accessor.StatefulSets
--     cassandra-operator/pkg/operator/operations/statefulset_accessor.go.
--   Metrics: cassandra-operator/pkg/metrics/metrics.go, nodestatus.go and prometheus.go.
--   Operations: Execute of every operation of cassandra-operator/pkg/operator/operations.
--     Operations.Clusters adds, updates and deletes clusters, Operations.Snapshots keeps the cron
--     jobs.
--   Receiver: cassandra-operator/pkg/operator/operations/receiver.go.
--   Dispatcher: cassandra-operator/pkg/dispatcher/dispatcher.go as a step relation, in which callers,
--     workers and the watcher of the stop channel interleave freely.
--   Operator: the callbacks and the polling round of cassandra-operator/pkg/operator/operator.go;
--     Operator.Startup is cassandra-operator/cmd/operator/main.go, and Operator.Status the HTTP
--     answers of cassandra-operator/pkg/operator/status.go. Operator.Wiring says which notification
--     reaches which callback, Operator.Registration which informers Run starts, and
--     Operator.EndToEnd follows a notification to its operation; Operator.Noticed is the callback
--     of an update.
--   Snapshots: cassandra-snapshot/pkg, with nodetool.go in Snapshots.Nodetool and snapshot.go in
--     Snapshots.Manipulator; Snapshots.Commands is cassandra-snapshot/cmd. Snapshots.Logged
--     describes a run by the commands it executes.
--   Examples: concrete inputs to the theorems.
--
-- Conventions. A pointer that is only read is an Option; one that is shared is an address in a store,
-- and an address that was never handed out is a nil pointer. An error is a value; a nil dereference is
-- a panic, an outcome of its own. An int64 or int32 computation wraps around as in Go. Maps are
-- association lists; the order in which Go ranges over one is the list's. Neither a nil map nor a
-- nil list of racks is told from an empty one. Where sharing by pointer is the point, in
-- Api.Memory, every pointer is an address.
--
-- What a theorem asks of Kubernetes or Prometheus is a record of laws, which the examples fill:
-- Accepting in Accessor.Accepting and Applying in Operations.Clusters.Changes for a Kubernetes that
-- takes what it is sent, ServerLog and TrackerLog in Client.Calls for logs of calls, and Readable
-- in Metrics.Readings for gauges that can be read.
--
-- Loops are structural recursion. The one loop of the program without a bound, the wait for a rack,
-- runs over the answers that Kubernetes gives: it ends in the outcome `waiting` if they run out. The
-- decimal printer takes the number itself plus one as fuel, which exceeds its number of digits.
--
-- Not modelled: logging; the registration of the scheme, the double of the client set; the parsing of
-- the command lines; the HTTP server and the signal handler; the Java bootstrapper and seed
-- provider. What Kubernetes, Jolokia and Prometheus do is a parameter.
pub mod Base
pub mod Platform
pub mod Api
pub mod Client
pub mod Cluster
pub mod Adjuster
pub mod Kube
pub mod Hash
pub mod World
pub mod Accessor
pub mod Metrics
pub mod Operations
pub mod Receiver
pub mod Dispatcher
pub mod Operator
pub mod Snapshots
pub mod Examples
