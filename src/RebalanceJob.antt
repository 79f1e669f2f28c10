-- ===== src/RebalanceJob.antt =====
-- internal/redis/reshard.go: `CreateReshardJob`, which creates a job and polls it. The operator does not
-- call it.
pub mod Polling
use redis_foxtrot_autoscaler.Prelude.{
  ℕ, zero, suc, Bool, Option, none, some, List, [], ◌∷◌, String, ◌^^◌, if◌then◌else◌,
}
use redis_foxtrot_autoscaler.Prelude.Int32.{lt32}
use redis_foxtrot_autoscaler.Errors.{ApiError}
use redis_foxtrot_autoscaler.Kube.{Key, JobStatus, RestartPolicy, never, Response, ok, err}

-- The fields of the job that the code sets.
pub record BatchJob : Type 0 where
  pub name : String
  pub namespace : String
  pub restart_policy : RestartPolicy
  pub container : String
  pub image : String
  pub command : List String

pub data Call : Type 0 where
  get_job delete_job : Key → Call
  create_job : BatchJob → Call

-- The calls of the client, answered from the calls before them, and the choice of `select`: whether it
-- takes the timeout's channel. Of two channels that are ready it takes any.
pub record Client : Type 0 where
  pub get : List Call → Key → Response JobStatus
  pub create : List Call → BatchJob → Option ApiError
  pub timed_out : List Call → Bool

-- The errors that the code makes, with the values that are printed into them.
pub data RebalanceError : Type 0 where
  create_failed get_failed : ApiError → RebalanceError
  timeout : RebalanceError
  job_failed : String → RebalanceError

abbrev pub job_key : String → String → Key
job_key namespace cluster_name = record {
  name = cluster_name ^^ "-reshard-job";
  namespace = namespace;
}

abbrev target : String → String → String
target namespace cluster_name =
    cluster_name
    ^^ ("-0." ^^ (cluster_name ^^ ("-headless." ^^ (namespace ^^ ".svc.cluster.local:6379"))))

unfoldable pub rebalance_job : String → String → String → BatchJob
rebalance_job namespace cluster_name redis_password = record {
  name = (job_key namespace cluster_name).name;
  namespace = namespace;
  restart_policy = never;
  container = "reshard";
  image = "bitnamilegacy/redis-cluster:7.2";
  command =
      "/bin/bash"
      ∷ "-c"
      ∷ ("redis-cli -a '"
          ^^ (redis_password
              ^^ ("' --cluster rebalance "
                  ^^ (target namespace cluster_name
                      ^^ " --cluster-use-empty-masters --cluster-yes"))))
      ∷ [];
}

-- The function's result, `none` for a loop that is out of fuel, and the calls that it has made.
abbrev pub Run : Type 0
Run = List Call → Option (Option RebalanceError) × List Call

abbrev pub give : Option RebalanceError → Run
give e h = (some e, h)

-- What a tick does with the job's status; the error of the deletion is dropped.
abbrev pub watch_status : Key → Response JobStatus → Run → Run
watch_status k (err e) rest = give (some (get_failed e))
watch_status k (ok j) rest =
    if lt32 0 j.succeeded
    then (λ h. give none (delete_job k ∷ h))
    else if lt32 0 j.failed
    then give (some (job_failed k.name))
    else rest

-- Any error of the lookup counts as a job that is not there.
abbrev pub unless_present : Response JobStatus → Run → Run
unless_present (ok j) next = give none
unless_present (err e) next = next

module _ (c : Client) where
  abbrev pub tick : Key → Run → Run
  tick k rest h = watch_status k (c.get h k) rest (get_job k ∷ h)

  abbrev pub select_channel : Bool → Key → Run → Run
  select_channel timed_out k rest = if timed_out then give (some timeout) else tick k rest

  -- `for { select { ... } }`
  unfoldable pub poll : ℕ → Key → Run
  poll zero k h = (none, h)
  poll (suc fuel) k h = select_channel (c.timed_out h) k (poll fuel k) h

  abbrev pub await : ℕ → Key → Option ApiError → Run
  await fuel k (some e) = give (some (create_failed e))
  await fuel k none = poll fuel k

  abbrev pub make : ℕ → Key → BatchJob → Run
  make fuel k j h = await fuel k (c.create h j) (create_job j ∷ h)

  unfoldable pub create_reshard_job : ℕ → String → String → String → Run
  create_reshard_job fuel namespace cluster_name redis_password h =
      let k = job_key namespace cluster_name in
      unless_present (c.get h k) (make fuel k (rebalance_job namespace cluster_name redis_password))
        (get_job k ∷ h)
