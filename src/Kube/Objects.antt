-- ===== src/Kube/Objects.antt =====
-- The Kubernetes objects that the controller reads and writes, with the fields that it uses.
use redis_foxtrot_autoscaler.Prelude.{ℕ, Bool, Option, List, String}
use redis_foxtrot_autoscaler.Prelude.Int32.{Int32}
use redis_foxtrot_autoscaler.Errors.{Phase}
use redis_foxtrot_autoscaler.Cluster.{Labels}

-- `client.ObjectKey`
pub record Key : Type 0 where
  pub name : String
  pub namespace : String

-- `corev1.Pod`: the phase, `Ready` of each container status, type and status of each condition.
pub record Pod : Type 0 where
  pub name : String
  pub phase : Phase
  pub container_ready : List Bool
  pub conditions : List (String × String)

-- What the controller reads of a stateful set: `*sts.Spec.Replicas` and `sts.Status.ReadyReplicas`.
pub record StatefulSetView : Type 0 where
  pub replicas : Int32
  pub ready_replicas : Int32

-- `batchv1.JobStatus`
pub record JobStatus : Type 0 where
  pub succeeded : Int32
  pub failed : Int32

pub data RestartPolicy : Type 0 where
  never on_failure : RestartPolicy

-- What `fmt.Sprintf` puts into the bootstrap script.
pub record BootstrapValues : Type 0 where
  pub active_masters : Int32
  pub active_hosts : String
  pub replicas_per_master : Int32
  pub entrypoint : String
  pub standby_master : String
  pub standby_replica : String

-- The shell text that a job runs: an embedded file of internal/controller/scripts, or a text of the Go
-- code, with what `fmt.Sprintf` puts into it. What a shell does with it is not modelled.
pub data Script : Type 0 where
  drain_script cleanup_standby_script reshard_script join_nodes_command : Script
  bootstrap_command : BootstrapValues → Script

-- A job that the controller builds. `owner` is the key that `SetControllerReference` writes.
pub record Job : Type 0 where
  pub name : String
  pub namespace : String
  pub labels : Labels
  pub active_deadline_seconds : Option Int32
  pub backoff_limit : Int32
  pub restart_policy : RestartPolicy
  pub container : String
  pub image : String
  pub command : List String
  pub script : Script
  pub env : List (String × String)
  pub owner : Option Key

-- `corev1.Container`, of which the ports are the numbers and names, and the mounts names and paths.
pub record Container : Type 0 where
  pub name : String
  pub image : String
  pub command : List String
  pub args : List String
  pub ports : List (String × ℕ)
  pub mounts : List (String × String)
  pub requests : List (String × String)
  pub limits : List (String × String)

pub record ConfigMap : Type 0 where
  pub name : String
  pub namespace : String
  pub labels : Labels
  pub contents : List (String × String)

pub record Service : Type 0 where
  pub name : String
  pub namespace : String
  pub labels : Labels
  pub cluster_ip : String
  pub selector : Labels
  pub ports : List (String × ℕ)

pub record StatefulSet : Type 0 where
  pub name : String
  pub namespace : String
  pub labels : Labels
  pub replicas : Int32
  pub service_name : String
  pub selector : Labels
  pub template_labels : Labels
  pub annotations : List (String × String)
  pub config_volume : String × String
  pub containers : List Container
  pub claim : String × String × String

pub record ServiceMonitor : Type 0 where
  pub name : String
  pub namespace : String
  pub labels : Labels
  pub selector : Labels
  pub port : String
  pub interval : String
  pub path : String

-- The four kinds of `client.Object` that `reconcileResource` is called with.
pub data Resource : Type 0 where
  config_map : ConfigMap → Resource
  service : Service → Resource
  stateful_set : StatefulSet → Resource
  service_monitor : ServiceMonitor → Resource
