-- ===== src/Cluster.antt =====
-- pkg/k8s: what of the access to the cluster does not go through its API.
pub mod Retry
pub mod Pods
mod Tests
