-- ===== src/Infrastructure/Order.antt =====
-- The objects that `reconcileInfrastructure` writes, as a list that it goes through up to an error.
use redis_foxtrot_autoscaler.Prelude.{
  false, ℕ, sym, ◌≡◌, refl, ap, ◌∙◌, true, Option, none, some, List, [], ◌∷◌, if_cases, arith,
}
use redis_foxtrot_autoscaler.Errors.{ApiError, not_found, failure}
use redis_foxtrot_autoscaler.Cluster.{RedisCluster}
use redis_foxtrot_autoscaler.Kube.{
  ◌>>=◌, Service, get_service, key_in, fetch_service, State, Action, Request, get_resource,
  create_resource, update_resource, Response, ok, err, error_of, Resource, config_map, service,
  stateful_set, service_monitor, Platform,
}
use redis_foxtrot_autoscaler.Resources.{
  config_map_for, service_for, stateful_set_for, service_monitor_for,
}
use redis_foxtrot_autoscaler.Infrastructure.{
  monitor_existing, resource_name, create_or_update, reconcile_resource, if_owned, reconcile_owned,
  and_then, reconcile_infrastructure,
}
use redis_foxtrot_autoscaler.Infrastructure.Effects.{reconcile_owned-cluster}

-- The objects of a cluster that the operator manages: the config map, and those behind it.
abbrev objects_behind : RedisCluster → List Resource
objects_behind c =
    service (service_for c)
    ∷ stateful_set (stateful_set_for c)
    ∷ service_monitor (service_monitor_for c (service_for c))
    ∷ []

abbrev pub objects : RedisCluster → List Resource
objects c = config_map (config_map_for c) ∷ objects_behind c

module _ {F : Type 0} (p : Platform F) (c : RedisCluster) where
  -- What the handling of one object does to the calls, with its error.
  pub data Handled (x : Resource) (h : List Request) : Option ApiError → List Request → Type 0 where
    not_owned : (e : ApiError) → p.set_owner c (resource_name x) ≡ some e → Handled x h (some e) h
    unreadable :
        (n : ℕ)
        → p.read_resource h x ≡ err (failure n)
        → Handled x h (some (failure n)) (get_resource x ∷ h)
    created :
        p.read_resource h x ≡ err not_found
        → Handled x h
            (error_of (p.write_resource (get_resource x ∷ h) x))
            (create_resource x ∷ get_resource x ∷ h)
    updated :
        p.read_resource h x ≡ ok tt
        → Handled x h
            (error_of (p.write_resource (get_resource x ∷ h) x))
            (update_resource x ∷ get_resource x ∷ h)

  -- The objects in order, up to the first error.
  pub data Maintained : List Resource → List Request → Option ApiError → List Request → Type 0 where
    all_kept : {h : List Request} → Maintained [] h none h
    kept :
        {x : Resource} {xs : List Resource} {h h' h'' : List Request} {e : Option ApiError}
        → Handled x h none h'
        → Maintained xs h' e h''
        → Maintained (x ∷ xs) h e h''
    stops :
        {x : Resource} {xs : List Resource} {h h' : List Request} {e : ApiError}
        → Handled x h (some e) h'
        → Maintained (x ∷ xs) h (some e) h'

  read-Handled :
      (x : Resource) (s : State) (r : Response (Unit {0}))
      → p.read_resource s.calls x ≡ r
      → let (o, t) = create_or_update p x r (record s { calls = get_resource x ∷ s.calls }) in
        Handled x s.calls o t.calls
  read-Handled x s (err not_found) e = created e
  read-Handled x s (err (failure n)) e = unreadable n e
  read-Handled x s (ok u) e = updated e

  owned-Handled :
      (x : Resource) (s : State) (o : Option ApiError)
      → p.set_owner c (resource_name x) ≡ o
      → let (e, t) = if_owned p o (reconcile_resource p x) s in Handled x s.calls e t.calls
  unfolding reconcile_resource
  owned-Handled x s none h = read-Handled x s (p.read_resource s.calls x) refl
  owned-Handled x s (some e) h = not_owned e h

  owner-Handled :
      (x : Resource) (s : State)
      → s.cluster ≡ c
      → Handled x s.calls (reconcile_owned p x s).0 (reconcile_owned p x s).1.calls
  unfolding reconcile_owned
  owner-Handled x s same =
      owned-Handled x s (p.set_owner s.cluster (resource_name x))
        (ap (λ y. p.set_owner y (resource_name x)) (sym same))

  next-Maintained :
      {x : Resource} {xs : List Resource} {h : List Request} (o : Option ApiError)
      (rest : Action (Option ApiError)) (t : State)
      → Handled x h o t.calls
      → Maintained xs t.calls (rest t).0 (rest t).1.calls
      → Maintained (x ∷ xs) h (if_owned p o rest t).0 (if_owned p o rest t).1.calls
  next-Maintained none rest t d m = kept d m
  next-Maintained (some e) rest t d m = stops d

  and_then-Maintained :
      (x : Resource) (xs : List Resource) (rest : Action (Option ApiError)) (s : State)
      → s.cluster ≡ c
      → ((t : State) → t.cluster ≡ c → Maintained xs t.calls (rest t).0 (rest t).1.calls)
      → let (o, t) = and_then p (reconcile_owned p x) rest s in
        Maintained (x ∷ xs) s.calls o t.calls
  and_then-Maintained x xs rest s same goes_on =
      let (o, t) = reconcile_owned p x s in
      next-Maintained o rest t (owner-Handled x s same)
        (goes_on t (reconcile_owned-cluster p x s ∙ same))

  last-Maintained :
      {x : Resource} {h h' : List Request} (o : Option ApiError)
      → Handled x h o h'
      → Maintained (x ∷ []) h o h'
  last-Maintained none d = kept d all_kept
  last-Maintained (some e) d = stops d

module _ {F : Type 0} (p : Platform F) where
  -- On an existing cluster: the config map, and the monitor of its service where that is found.
  pub data Adopted (c : RedisCluster) (h : List Request)
      : Option ApiError → List Request → Type 0 where
    no_config :
        {h' : List Request} {e : ApiError}
        → Handled p c (config_map (config_map_for c)) h (some e) h'
        → Adopted c h (some e) h'
    unmonitored :
        {h' : List Request} (e : ApiError)
        → Handled p c (config_map (config_map_for c)) h none h'
        → p.read_service h' (key_in c c.spec.service_name) ≡ err e
        → Adopted c h none (get_service (key_in c c.spec.service_name) ∷ h')
    monitored :
        {h' h'' : List Request} {o : Option ApiError} (found : Service)
        → Handled p c (config_map (config_map_for c)) h none h'
        → p.read_service h' (key_in c c.spec.service_name) ≡ ok found
        → Handled p c
            (service_monitor (service_monitor_for c found))
            (get_service (key_in c c.spec.service_name) ∷ h')
            o
            h''
        → Adopted c h o h''

  monitor-Adopted :
      (c : RedisCluster) (h : List Request) (t : State) (r : Response Service)
      → t.cluster ≡ c
      → Handled p c (config_map (config_map_for c)) h none t.calls
      → p.read_service t.calls (key_in c c.spec.service_name) ≡ r
      → let t' = record t { calls = get_service (key_in c c.spec.service_name) ∷ t.calls } in
        Adopted c h (monitor_existing p c r t').0 (monitor_existing p c r t').1.calls
  monitor-Adopted c h t (err e) same d a = unmonitored e d a
  monitor-Adopted c h t (ok found) same d a =
      let t' = record t { calls = get_service (key_in c c.spec.service_name) ∷ t.calls } in
      monitored found d a
        (owner-Handled p c (service_monitor (service_monitor_for c found)) t' same)

  config-Adopted :
      (c : RedisCluster) (h : List Request) (o : Option ApiError) (t : State)
      → t.cluster ≡ c
      → Handled p c (config_map (config_map_for c)) h o t.calls
      → let rest = fetch_service p (key_in c c.spec.service_name) >>= monitor_existing p c in
        Adopted c h (if_owned p o rest t).0 (if_owned p o rest t).1.calls
  config-Adopted c h none t same d =
      monitor-Adopted c h t (p.read_service t.calls (key_in c c.spec.service_name)) same d refl
  config-Adopted c h (some e) t same d = no_config d

  -- On a cluster whose stateful set is not managed, reconcileInfrastructure handles the config map
  -- and then, if that gave no error and the named service is read, the monitor of that service; a
  -- service that cannot be read is no error.
  pub reconcile_infrastructure-Adopted :
      (s : State)
      → s.cluster.spec.manage_stateful_set ≡ false
      → let (e, t) = reconcile_infrastructure p s in Adopted s.cluster s.calls e t.calls
  unfolding reconcile_infrastructure
  reconcile_infrastructure-Adopted s adopted =
      let c = s.cluster in
      let x = config_map (config_map_for c) in
      if_cases {A = Action (Option ApiError)}
        (λ a.
          Adopted c s.calls (and_then p (reconcile_owned p x) a s).0
            (and_then p (reconcile_owned p x) a s).1.calls)
        c.spec.manage_stateful_set _ _ (λ on. ground arith)
        (λ off.
          config-Adopted c s.calls (reconcile_owned p x s).0 (reconcile_owned p x s).1
            (reconcile_owned-cluster p x s) (owner-Handled p c x s refl))

  -- On a cluster whose stateful set is managed, reconcileInfrastructure handles the config map,
  -- the service, the stateful set and the monitor, in this order, each made where the server has
  -- none and updated otherwise, up to the first error, which is its answer.
  pub reconcile_infrastructure-Maintained :
      (s : State)
      → s.cluster.spec.manage_stateful_set ≡ true
      → let (e, t) = reconcile_infrastructure p s in
        Maintained p s.cluster (objects s.cluster) s.calls e t.calls
  unfolding reconcile_infrastructure
  reconcile_infrastructure-Maintained s managed =
      let c = s.cluster in
      let m = service_monitor (service_monitor_for c (service_for c)) in
      let chain = and_then-Maintained p c in
      let later = objects_behind c in
      chain (config_map (config_map_for c)) later _ s refl (λ t u.
        if_cases {A = Action (Option ApiError)}
          (λ a. Maintained p c later t.calls (a t).0 (a t).1.calls) c.spec.manage_stateful_set _ _
          (λ on. chain (service (service_for c)) _ _ t u (λ t' u'.
            chain (stateful_set (stateful_set_for c)) _ _ t' u'
              (λ v w. last-Maintained p c (reconcile_owned p m v).0 (owner-Handled p c m v w))))
          (λ off. ground arith))
