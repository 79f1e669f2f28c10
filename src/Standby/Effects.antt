-- ===== src/Standby/Effects.antt =====
-- What the detection of the standby does to the cluster object, and what it has found out when it
-- reports no error.
use text.Mathlib.TextEquality.{eq_iff}
use redis_foxtrot_autoscaler.Prelude.{
  if_cases, ◌≢◌, ◌≡◌, refl, ap, ◌∙◌, sym, inl, inr, true, false, Bool-cases, Option, none, some,
  any, List, String,
}
use redis_foxtrot_autoscaler.Prelude.Text.{str_eq}
use redis_foxtrot_autoscaler.Errors.{Error, ApiError, not_found, failure}
use redis_foxtrot_autoscaler.Cluster.{RedisCluster}
use redis_foxtrot_autoscaler.Cluster.Index.{standby_pod_name}
use redis_foxtrot_autoscaler.Kube.{
  Action, State, Pod, Response, ok, err, Platform, UpdateLaws, put_status, put_status-status,
  fetch_pod, fetch_pods, key_in,
}
use redis_foxtrot_autoscaler.Standby.{
  is_running, detect_existing, detect_managed, detect_and_set_standby_pod, save_changed,
  standby_saved, check_and_update_standby_pod,
}

-- The cluster with another standby.
abbrev pub noted : RedisCluster → String → RedisCluster
noted c pod = record c { status = record (c.status) { standby_pod = pod } }

-- The detection changes at most the standby; where it succeeds on a managed cluster, the standby is
-- the pod at the standby's index.
pub record Detects (c : RedisCluster) (r : Option Error × State) : Type 0 where
  pub pod : String
  pub result : r.1.cluster ≡ noted c pod
  pub named : c.spec.existing_cluster ≡ false → r.0 ≡ none → pod ≡ standby_pod_name c

detect_managed-Detects :
    (r : Response Pod) (s : State)
    → Detects s.cluster (detect_managed (standby_pod_name s.cluster) r s)
detect_managed-Detects (err not_found) s = record {
  pod = s.cluster.status.standby_pod;
  result = refl;
  named = λ m e. cc;
}
detect_managed-Detects (err (failure n)) s = record {
  pod = s.cluster.status.standby_pod;
  result = refl;
  named = λ m e. cc;
}
detect_managed-Detects (ok pod) s = elim (Bool-cases (is_running pod.phase)) [
  | inr down ↦
      rw down (record { pod = s.cluster.status.standby_pod; result = refl; named = λ m e. cc })
  | inl up ↦ elim (Bool-cases (any (λ ready. ready) pod.container_ready)) [
    | inr none_ready ↦
        rw (up, none_ready)
          (record { pod = s.cluster.status.standby_pod; result = refl; named = λ m e. cc })
    | inl ready ↦
        rw (up, ready)
          (record { pod = standby_pod_name s.cluster; result = refl; named = λ m e. refl })
  ]
]

detect_existing-Detects :
    (r : Response (List Pod)) (s : State)
    → s.cluster.spec.existing_cluster ≡ true
    → Detects s.cluster (detect_existing s.cluster r s)
detect_existing-Detects (err e) s h = record {
  pod = s.cluster.status.standby_pod;
  result = refl;
  named = λ m e. cc;
}
detect_existing-Detects (ok pods) s h = elim (Bool-cases (str_eq s.cluster.status.standby_pod "")) [
  | inl missing ↦
      rw missing (record { pod = s.cluster.status.standby_pod; result = refl; named = λ m e. cc })
  | inr known ↦
      rw known (record { pod = s.cluster.status.standby_pod; result = refl; named = λ m e. cc })
]

module _ {F : Type 0} (p : Platform F) where
  pub detect-Detects : (s : State) → Detects s.cluster (detect_and_set_standby_pod p s)
  unfolding detect_and_set_standby_pod
  detect-Detects s =
      let c = s.cluster in
      let k = key_in c (standby_pod_name c) in
      if_cases {A = Action (Option Error)} (λ m. Detects c (m s)) c.spec.existing_cluster _ _
        (detect_existing-Detects (p.read_pods s.calls c.namespace c.spec.pod_selector)
          (fetch_pods p c.namespace c.spec.pod_selector s).1)
        (λ _. detect_managed-Detects (p.read_pod s.calls k) (fetch_pod p k s).1)

  standby_saved-ne-none : (e : Option ApiError) → standby_saved p e ≢ none
  standby_saved-ne-none none h = cc
  standby_saved-ne-none (some x) h = cc

  -- After the check the standby may be another one; where it reports no error, the object is as it
  -- was, and a managed cluster's standby is the pod at the standby's index.
  pub record Checks (c : RedisCluster) (r : Option Error × State) : Type 0 where
    pub pod : String
    pub status : r.1.cluster.status ≡ (noted c pod).status
    pub settled : r.0 ≡ none → r.1.cluster ≡ c
    pub named :
        c.spec.existing_cluster ≡ false → r.0 ≡ none → c.status.standby_pod ≡ standby_pod_name c

  module _ (laws : UpdateLaws p) where
    saved-Checks :
        (c : RedisCluster) (e : Option Error) (s : State)
        → Detects c (e, s)
        → Checks c (save_changed p c.status.standby_pod e s)
    saved-Checks c (some e) s d = record {
      pod = d.pod;
      status = ap (λ (x : RedisCluster). x.status) d.result;
      settled = λ h. cc;
      named = λ m h. cc;
    }
    saved-Checks c none s d =
        let same = ap (λ (x : RedisCluster). x.status.standby_pod) d.result in
        if_cases {A = Action (Option Error)} (λ m. Checks c (m s))
          (str_eq s.cluster.status.standby_pod c.status.standby_pod) _ _
          (λ h.
            let old = sym ((eq_iff s.cluster.status.standby_pod c.status.standby_pod).0 h) ∙ same in
            record {
              pod = d.pod;
              status = ap (λ (x : RedisCluster). x.status) d.result;
              settled = λ _. d.result ∙ ap (noted c) (sym old);
              named = λ m e. old ∙ d.named m e;
            })
          (λ h. record {
            pod = d.pod;
            status = put_status-status p laws s ∙ ap (λ (x : RedisCluster). x.status) d.result;
            settled = λ e. absurd (standby_saved-ne-none (put_status p s).0 e);
            named = λ m e. absurd (standby_saved-ne-none (put_status p s).0 e);
          })

    pub check_and_update-Checks : (s : State) → Checks s.cluster (check_and_update_standby_pod p s)
    unfolding check_and_update_standby_pod
    check_and_update-Checks s =
        let d = detect-Detects s in
        saved-Checks s.cluster (detect_and_set_standby_pod p s).0 (detect_and_set_standby_pod p s).1
          (record { pod = d.pod; result = d.result; named = d.named })
