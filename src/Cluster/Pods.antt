-- ===== src/Cluster/Pods.antt =====
-- pkg/k8s/workerpod.go, PodInfraReason: whether a pod failed for a reason outside of it.
use mathlib.Core.List.{◌++◌}
use io_stress.Common.{Bool, ◌||◌, String, List, [], ◌∷◌, Option, none, some, str_eq, if◌then◌else◌}

-- corev1.Pod, as far as it is read: the reason of its status, and of each container the reason of its
-- termination, where it has terminated.
pub record Pod : Type 0 where
  pub reason : String
  pub containers : List (Option String)
  pub init_containers : List (Option String)

abbrev pub infra_word : String → Bool
infra_word reason = str_eq reason "Evicted" || str_eq reason "OOMKilled"

unfoldable pub infra_container : List (Option String) → String
infra_container [] = ""
infra_container (none ∷ cs) = infra_container cs
infra_container (some reason ∷ cs) =
    let later = infra_container cs in if infra_word reason then reason else later

-- PodInfraReason, where `none` is nil
unfoldable pub pod_infra_reason : Option Pod → String
unfolding infra_container
pod_infra_reason none = ""
pod_infra_reason (some pod) =
    if infra_word pod.reason
    then pod.reason
    else infra_container (pod.containers ++ pod.init_containers)
