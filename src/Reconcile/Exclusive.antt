-- ===== src/Reconcile/Exclusive.antt =====
-- A round of `Reconcile` keeps the status exclusive, if the resource that it reads has such a status.
use redis_foxtrot_autoscaler.Prelude.{◌≡◌, refl, if_cases, ◌&&◌, Option, none, some, List}
use redis_foxtrot_autoscaler.Prelude.Text.{str_eq}
use redis_foxtrot_autoscaler.Errors.{Error, not_found, failure}
use redis_foxtrot_autoscaler.Cluster.{RedisCluster}
use redis_foxtrot_autoscaler.Cluster.Spec.{set_defaults, validate_spec}
use redis_foxtrot_autoscaler.Kube.{
  State, Action, Outcome, Request, Response, ok, err, Key, Platform, UpdateLaws, Sends, nothing,
  also, put_status, fetch_cluster, or_else_cases, fail_api, ◌>>=◌,
}
use redis_foxtrot_autoscaler.Infrastructure.{reconcile_infrastructure}
use redis_foxtrot_autoscaler.Infrastructure.Exclusive.{infrastructure-Keeps}
use redis_foxtrot_autoscaler.Standby.{detect_and_set_standby_pod}
use redis_foxtrot_autoscaler.Bootstrap.{handle_bootstrap}
use redis_foxtrot_autoscaler.Bootstrap.Exclusive.{handle_bootstrap-Keeps}
use redis_foxtrot_autoscaler.Autoscaler.Machine.{IsExclusive}
use redis_foxtrot_autoscaler.Autoscaler.Exclusive.{
  SavesExclusive, Keeps, detect-Keeps, saved-Keeps, round-Keeps,
}
use redis_foxtrot_autoscaler.Reconcile.{
  hold, scale_or_wait, save_detected, ensure_standby, after_bootstrap, if_valid, reconcile_found,
  reconcile,
}

module _ {F : Type 0} (p : Platform F) (laws : UpdateLaws p) where
  module _ {h : List Request} where
    scale-Keeps : (s : State) → Keeps h s → Keeps h (scale_or_wait p s).1
    unfolding scale_or_wait
    scale-Keeps s k =
        if_cases {A = Action Outcome} (λ m. Keeps h (m s).1)
          (s.cluster.status.initialized && s.cluster.spec.auto_scale_enabled) _ _
          (λ _. round-Keeps p laws s k) (λ _. k)

    detected-Keeps : (o : Option Error) (s : State) → Keeps h s → Keeps h (save_detected p o s).1
    detected-Keeps (some e) s k = k
    detected-Keeps none s k =
        let saved = saved-Keeps p laws s k in
        or_else_cases (Keeps h) (put_status p) fail_api (scale_or_wait p) s saved
          (scale-Keeps (put_status p s).1 saved)

    ensure-Keeps : (s : State) → Keeps h s → Keeps h (ensure_standby p s).1
    unfolding ensure_standby
    ensure-Keeps s k =
        if_cases {A = Action Outcome} (λ m. Keeps h (m s).1)
          (str_eq s.cluster.status.standby_pod "") _ _
          (λ _.
            detected-Keeps (detect_and_set_standby_pod p s).0 (detect_and_set_standby_pod p s).1
              (detect-Keeps p s k))
          (λ _. scale-Keeps s k)

    after-Keeps : (o : Option Outcome) (s : State) → Keeps h s → Keeps h (after_bootstrap p o s).1
    after-Keeps (some o) s k = k
    after-Keeps none s k = ensure-Keeps s k

    valid-Keeps : (o : Option Error) (s : State) → Keeps h s → Keeps h (if_valid p o s).1
    valid-Keeps (some e) s k = k
    valid-Keeps none s k =
        let t = (reconcile_infrastructure p s).1 in
        let kt = infrastructure-Keeps p s k in
        or_else_cases (Keeps h) (reconcile_infrastructure p) fail_api
          (handle_bootstrap p >>= after_bootstrap p) s kt
          (after-Keeps (handle_bootstrap p t).0 (handle_bootstrap p t).1
            (handle_bootstrap-Keeps p laws t kt))

  found-Sends :
      (h : List Request) (r : Response RedisCluster) (s : State)
      → Sends SavesExclusive h s.calls
      → ((c : RedisCluster) → r ≡ ok c → IsExclusive c.status)
      → Sends SavesExclusive h (reconcile_found p r s).1.calls
  unfolding set_defaults
  found-Sends h (err not_found) s sent fresh = sent
  found-Sends h (err (failure n)) s sent fresh = sent
  found-Sends h (ok c) s sent fresh =
      let t = (hold (set_defaults c) s).1 in
      (valid-Keeps (validate_spec (set_defaults c).spec) t
        (record { valid = fresh c refl; sent = sent })).sent

  pub reconcile-Sends :
      (k : Key) (s : State)
      → ((c : RedisCluster) → p.read_cluster s.calls k ≡ ok c → IsExclusive c.status)
      → Sends SavesExclusive s.calls (reconcile p k s).1.calls
  unfolding reconcile
  reconcile-Sends k s fresh =
      found-Sends s.calls (p.read_cluster s.calls k) (fetch_cluster p k s).1 (also tt nothing) fresh
