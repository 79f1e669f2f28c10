-- ===== src/Errors.antt =====
-- The `error` values of the controller. An error that the API server or a library gave is an
-- `ApiError`, of which the code only asks `errors.IsNotFound`; an error that the code makes by
-- `fmt.Errorf` is a constructor with the values that are printed into it.
use redis_foxtrot_autoscaler.Prelude.{ℕ, String, List}
use redis_foxtrot_autoscaler.Prelude.Int.{ℤ}
use redis_foxtrot_autoscaler.Prelude.Int32.{Int32}

pub data ApiError : Type 0 where
  not_found : ApiError
  failure : ℕ → ApiError

-- `corev1.PodPhase`
pub data Phase : Type 0 where
  pending running succeeded failed unknown : Phase

pub data Error : Type 0 where
  api : ApiError → Error
  cpu_thresholds memory_thresholds masters_below_minimum : Int32 → Int32 → Error
  pod_selector_required service_name_required : Error
  bootstrap_failed : String → Error
  list_redis_pods : ApiError → Error
  no_pods_found : List (String × String) → Error
  no_running_pods standby_not_implemented : Error
  standby_not_ready standby_containers_not_ready : String → Error
  get_standby : ApiError → Error
  standby_not_running : String → Phase → Error
  cooldown_active : ℤ → Error
  list_pods_failed : Error
  pod_count_mismatch pods_not_ready : Int32 → ℕ → Error
  detect_standby : Error → Error
  save_standby standby_updated : Error
  query_job job_in_progress job_failed : String → Error
  prometheus_client cpu_query memory_query : ApiError → Error
  no_cpu_data no_memory_data : Error
  -- a run-time panic, which the manager reports as an error of the round
  index_out_of_range : Error
