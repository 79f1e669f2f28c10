-- ===== src/Kube/Server.antt =====
-- What the controller runs on: the API server, the Prometheus server, the clock, the floating-point
-- numbers and the two parts of Go whose order is not fixed. None of it is code of the repository.
--
-- The server is not modelled: what it answers is any function of the calls made so far. So whatever
-- holds for every `Platform` holds also with other writers between the calls.
use redis_foxtrot_autoscaler.Prelude.{ℕ, Bool, Option, List, String}
use redis_foxtrot_autoscaler.Prelude.Int32.{Int32}
use redis_foxtrot_autoscaler.Errors.{ApiError}
use redis_foxtrot_autoscaler.Cluster.{RedisCluster, Labels}
use redis_foxtrot_autoscaler.Kube.Objects.{
  Key, Pod, StatefulSetView, JobStatus, Job, Service, Resource,
}

pub data Response (A : Type 0) : Type 0 where
  ok : A → Response A
  err : ApiError → Response A

-- One call of the client, with what it sends.
pub data Request : Type 0 where
  get_cluster get_job get_stateful_set get_pod get_service delete_job : Key → Request
  list_pods : String → Labels → Request
  update_cluster update_status : RedisCluster → Request
  create_job : Job → Request
  get_resource create_resource update_resource : Resource → Request
  query : String → Request

-- `PodLoad`, over the type of the floating-point numbers.
pub record PodLoad (F : Type 0) : Type 0 where
  pub pod_name : String
  pub cpu_usage : F
  pub memory_usage : F

-- A sample of an instant vector: the `pod` label, and the value.
abbrev pub Vector : Type 0 → Type 0
Vector F = List (String × F)

pub record Platform (F : Type 0) : Type 0 where
  -- `a < b` on float64
  pub less : F → F → Bool
  -- `float64(n)`
  pub of_int32 : Int32 → F
  -- `sort.Slice`, which need not be stable
  pub sort_slice : (PodLoad F → PodLoad F → Bool) → List (PodLoad F) → List (PodLoad F)
  -- the order in which `range` goes through a map
  pub range_order : List (String × F) → List (String × F)
  -- `metav1.Now()` and `time.Now()`, in nanoseconds
  pub now : List Request → ℕ
  pub read_cluster : List Request → Key → Response RedisCluster
  pub read_job : List Request → Key → Response JobStatus
  pub read_stateful_set : List Request → Key → Response StatefulSetView
  pub read_pod : List Request → Key → Response Pod
  pub read_service : List Request → Key → Response Service
  pub read_pods : List Request → String → Labels → Response (List Pod)
  pub read_resource : List Request → Resource → Response (Unit {0})
  -- an update answers with the object as the server has it then
  pub write_cluster : List Request → RedisCluster → Response RedisCluster
  pub write_status : List Request → RedisCluster → Response RedisCluster
  pub write_job : List Request → Job → Response (Unit {0})
  pub write_resource : List Request → Resource → Response (Unit {0})
  pub remove_job : List Request → Key → Response (Unit {0})
  -- `controllerutil.SetControllerReference`
  pub set_owner : RedisCluster → String → Option ApiError
  -- `api.NewClient`
  pub new_client : String → Option ApiError
  -- `v1api.Query`: `none` is an answer that is no vector
  pub query : List Request → String → Response (Option (Vector F))
