-- ===== src/Kube/Monad.antt =====
-- The controller's methods as actions: they read and write the object that `cluster` points to, and
-- make calls, which are recorded newest first.
use redis_foxtrot_autoscaler.Prelude.{
  ℕ, arith, ◌≡◌, ◌-◌, ◌*◌, Bool, true, false, Option, none, some, List, ◌∷◌, String, ltb,
  if◌then◌else◌,
}
use redis_foxtrot_autoscaler.Prelude.Int.{ℤ, pos, neg_ℕ}
use redis_foxtrot_autoscaler.Prelude.Int32.{Int32, half, modulus}
use redis_foxtrot_autoscaler.Errors.{Error, ApiError, api}
use redis_foxtrot_autoscaler.Cluster.{RedisCluster, RedisClusterSpec, RedisClusterStatus, Labels}
use redis_foxtrot_autoscaler.Kube.Objects.{
  Key, Pod, StatefulSetView, JobStatus, Job, Service, Resource,
}
use redis_foxtrot_autoscaler.Kube.Server.{
  Response, ok, err, Request, get_cluster, get_job, get_stateful_set, get_pod, get_service,
  delete_job, list_pods, update_cluster, update_status, create_job, get_resource, create_resource,
  update_resource, query, Vector, Platform,
}

pub record State : Type 0 where
  pub cluster : RedisCluster
  pub calls : List Request

abbrev pub Action : Type 0 → Type 0
Action A = State → A × State

abbrev pub pure : {A : Type 0} → A → Action A
pure a s = (a, s)

infixl 5 ◌>>=◌ ◌>>◌
abbrev pub ◌>>=◌ : {A B : Type 0} → Action A → (A → Action B) → Action B
◌>>=◌ m f s = let (a, s') = m s in f a s'

abbrev pub ◌>>◌ : {A B : Type 0} → Action A → Action B → Action B
◌>>◌ m k s = let (a, s') = m s in k s'

abbrev pub current : Action RedisCluster
current s = (s.cluster, s)

abbrev pub modify_status : (RedisClusterStatus → RedisClusterStatus) → Action (Unit {0})
modify_status f s = (tt, record s { cluster = record (s.cluster) { status = f s.cluster.status } })

abbrev pub modify_spec : (RedisClusterSpec → RedisClusterSpec) → Action (Unit {0})
modify_spec f s = (tt, record s { cluster = record (s.cluster) { spec = f s.cluster.spec } })

-- `ctrl.Result` with the error; durations are in nanoseconds.
pub record Outcome : Type 0 where
  pub requeue : Bool
  pub requeue_after : ℤ
  pub error : Option Error

abbrev pub second : ℕ
second = 1000000000

-- `time.Duration(n) * time.Second` of an `int32`, which an int64 holds.
abbrev pub seconds : Int32 → ℤ
seconds n = if ltb n half then pos (n * second) else neg_ℕ ((modulus - n) * second)

-- `ctrl.Result{}, nil`
abbrev pub done : Outcome
done = record { requeue = false; requeue_after = pos 0; error = none }

-- `ctrl.Result{Requeue: true}, nil`
abbrev pub again : Outcome
again = record { requeue = true; requeue_after = pos 0; error = none }

-- `ctrl.Result{RequeueAfter: d}, nil`
abbrev pub after : ℤ → Outcome
after d = record { requeue = false; requeue_after = d; error = none }

-- `ctrl.Result{}, err`
abbrev pub fail : Error → Outcome
fail e = record { requeue = false; requeue_after = pos 0; error = some e }

abbrev pub key_of : RedisCluster → Key
key_of c = record { name = c.name; namespace = c.namespace }

abbrev pub key_in : RedisCluster → String → Key
key_in c name = record { name = name; namespace = c.namespace }

-- The error of a call whose answer holds nothing else.
abbrev pub error_of : {A : Type 0} → Response A → Option ApiError
error_of (ok a) = none
error_of (err e) = some e

-- After an update the client overwrites the object with the server's answer; a failed update leaves it.
abbrev pub answered : RedisCluster → Response RedisCluster → RedisCluster
answered c (ok c') = c'
answered c (err e) = c

-- One call: it is recorded, and answered from the calls before it.
abbrev call : {A : Type 0} → Request → (List Request → A) → Action A
call q answer s = (answer s.calls, record s { calls = q ∷ s.calls })

-- A call that overwrites the object.
abbrev send :
    (RedisCluster → Request)
    → (List Request → RedisCluster → Response RedisCluster)
    → Action (Option ApiError)
send q answer s =
    let r = answer s.calls s.cluster in
    (error_of r, record s { cluster = answered s.cluster r; calls = q s.cluster ∷ s.calls })

module _ {F : Type 0} (p : Platform F) where
  abbrev pub fetch_cluster : Key → Action (Response RedisCluster)
  fetch_cluster k = call (get_cluster k) (λ h. p.read_cluster h k)

  abbrev pub fetch_job : Key → Action (Response JobStatus)
  fetch_job k = call (get_job k) (λ h. p.read_job h k)

  abbrev pub fetch_stateful_set : Key → Action (Response StatefulSetView)
  fetch_stateful_set k = call (get_stateful_set k) (λ h. p.read_stateful_set h k)

  abbrev pub fetch_pod : Key → Action (Response Pod)
  fetch_pod k = call (get_pod k) (λ h. p.read_pod h k)

  abbrev pub fetch_service : Key → Action (Response Service)
  fetch_service k = call (get_service k) (λ h. p.read_service h k)

  abbrev pub fetch_pods : String → Labels → Action (Response (List Pod))
  fetch_pods ns ls = call (list_pods ns ls) (λ h. p.read_pods h ns ls)

  abbrev pub fetch_resource : Resource → Action (Response (Unit {0}))
  fetch_resource x = call (get_resource x) (λ h. p.read_resource h x)

  -- `v1api.Query(ctx, text, time.Now())`
  abbrev pub run_query : String → Action (Response (Option (Vector F)))
  run_query text = call (query text) (λ h. p.query h text)

  -- `metav1.Now()`
  abbrev pub read_now : Action ℕ
  read_now s = (p.now s.calls, s)

  -- `r.Update(ctx, cluster)`
  abbrev pub put_cluster : Action (Option ApiError)
  put_cluster = send update_cluster p.write_cluster

  -- `r.Status().Update(ctx, cluster)`
  abbrev pub put_status : Action (Option ApiError)
  put_status = send update_status p.write_status

  abbrev pub make_job : Job → Action (Option ApiError)
  make_job j = call (create_job j) (λ h. error_of (p.write_job h j))

  abbrev pub make_resource : Resource → Action (Option ApiError)
  make_resource x = call (create_resource x) (λ h. error_of (p.write_resource h x))

  abbrev pub put_resource : Resource → Action (Option ApiError)
  put_resource x = call (update_resource x) (λ h. error_of (p.write_resource h x))

  -- `_ = r.Delete(ctx, job, ...)`: the error is dropped.
  abbrev pub drop_job : Key → Action (Option ApiError)
  drop_job k = call (delete_job k) (λ h. error_of (p.remove_job h k))

abbrev pub resume : (ApiError → Outcome) → Action Outcome → Option ApiError → Action Outcome
resume bad rest none = rest
resume bad rest (some x) = pure (bad x)

-- `if err := m; err != nil { return fail }`
abbrev pub or_else :
    Action (Option ApiError) → (ApiError → Outcome) → Action Outcome → Action Outcome
or_else m bad rest = m >>= resume bad rest

abbrev pub fail_api : ApiError → Outcome
fail_api e = fail (api e)

-- Where nothing follows, the state is the same on both answers.
pub or_else_state :
    (m : Action (Option ApiError)) (bad : ApiError → Outcome) (o : Outcome) (s : State)
    → (or_else m bad (pure o) s).1 ≡ (m s).1
or_else_state m bad o s = ground arith
