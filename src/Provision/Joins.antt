-- ===== src/Provision/Joins.antt =====
-- A provisioning that has worked: the new pod is the standby.
use redis_foxtrot_autoscaler.Prelude.{◌≡◌, refl, ◌&&◌, true, any, String, List, ◌∷◌}
use redis_foxtrot_autoscaler.Prelude.Int32.{lt32}
use redis_foxtrot_autoscaler.Cluster.{RedisCluster}
use redis_foxtrot_autoscaler.Cluster.Index.{standby_pod_name}
use redis_foxtrot_autoscaler.Jobs.{join_name}
use redis_foxtrot_autoscaler.Standby.{is_running}
use redis_foxtrot_autoscaler.Kube.{
  State, Key, Pod, JobStatus, Request, ok, Platform, Accepts, Synced, Silent, held, wrote, Sends,
  nothing, also, status_held, key_in, pure, ◌>>◌, again, drop_job, fetch_job, fetch_pod, get_pod,
}
use redis_foxtrot_autoscaler.Provision.{
  finish_provisioning, is_ready_condition, finish_join, check_provisioning_status,
}

-- The cluster after the join.
abbrev pub joined : RedisCluster → RedisCluster
joined c = record c { status = finish_provisioning (standby_pod_name c) c.status }

module _ {F : Type 0} (p : Platform F) where
  -- To a round that begins after the calls `h`, the pod at the standby's index runs and is ready, and the join job has succeeded.
  pub record JoinWorks (c : RedisCluster) (h : List Request) : Type 0 where
    pub pod : Pod
    pub present : p.read_pod h (key_in c (standby_pod_name c)) ≡ ok pod
    pub ready : (is_running pod.phase && any is_ready_condition pod.conditions) ≡ true
    pub job : JobStatus
    pub answer :
        p.read_job (get_pod (key_in c (standby_pod_name c)) ∷ h) (key_in c (join_name c)) ≡ ok job
    pub succeeded : lt32 0 job.succeeded ≡ true

  module _ (accepts : Accepts p) (o : RedisCluster) where
    drop-Silent :
        (k : Key) (t : State) → Sends (Silent p) t.calls ((do drop_job p k; pure again) t).1.calls
    unfolding wrote
    drop-Silent k t = also (λ h c. refl) nothing

    finish_join-held :
        (name : String) (k : Key) (s : State)
        → Synced p o s
        → held p o (finish_join p name k s).1.calls
          ≡ record (s.cluster) { status = finish_provisioning name s.cluster.status }
    unfolding finish_join
    finish_join-held name k s synced =
        status_held p accepts o (finish_provisioning name) (do drop_job p k; pure again) s synced
          (drop-Silent k)

    -- The server then holds the cluster with its standby.
    pub check_provisioning_status-held :
        (s : State)
        → Synced p o s
        → JoinWorks s.cluster s.calls
        → held p o (check_provisioning_status p s).1.calls ≡ joined s.cluster
    unfolding check_provisioning_status held wrote
    check_provisioning_status-held s synced w =
        let c = s.cluster in
        let name = standby_pod_name c in
        let t = (fetch_pod p (key_in c name) s).1 in
        let k = key_in c (join_name c) in
        rw (w.present, w.ready, w.answer, w.succeeded)
          (finish_join-held name k (fetch_job p k t).1 synced)
