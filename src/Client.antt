-- ===== src/Client.antt =====
-- cassandra-operator/pkg/client: the generated client for Cassandra resources, its double for tests,
-- and the informers and listers on top of it.
pub mod Rest
pub mod Cassandras
pub mod Fake
pub mod Calls
pub mod Agreement
pub mod Clientset
pub mod Factory
pub mod Informers
pub mod Lister
