-- ===== src/Cluster/Tests.antt =====
-- pkg/k8s at small runs.
use io_stress.Common.{ℕ, ◌+◌, ◌≤◌, ◌≡◌, refl, false, [], ◌∷◌, none, some, ltb, if◌then◌else◌}
use io_stress.Workload.Finalize.{plain}
use io_stress.Cluster.Retry.{Task, retry_context}
use io_stress.Cluster.Retry.Attempts.{counted, retry_context-Within}
use io_stress.Cluster.Pods.{pod_infra_reason, infra_container}

-- A task that works at the third call
abbrev third : Task
third = record {
  World = ℕ;
  ended = λ w. none;
  call = λ w. (if ltb w 2 then some (plain "busy") else none, w + 1);
  wait = λ d w. (false, w);
}

three_calls : retry_context (counted third) (0, 0, 0) ≡ (none, (3, 3, 15000000000))
unfolding retry_context
three_calls = refl

retry_context-Within_example :
    let (err, (w', calls, waited)) = retry_context (counted third) (0, 0, 0) in
    (calls ≤ 4) × (waited ≤ 35000000000) × (err ≡ none → 1 ≤ calls)
retry_context-Within_example = retry_context-Within third 0

killed :
    pod_infra_reason (
      some (record {
        reason = "Failed";
        containers = some "Error" ∷ none ∷ [];
        init_containers = some "OOMKilled" ∷ [];
      }))
    ≡ "OOMKilled"
unfolding pod_infra_reason infra_container
killed = refl
