-- ===== src/Cluster/Spec/Defaults.antt =====
-- What `SetDefaults` guarantees, against the defaults that the `+kubebuilder:default` markers of
-- api/v1/rediscluster_types.go document, and what that leaves for `ValidateSpec` to reject.
use Prim.Native.String.append
use redis_foxtrot_autoscaler.Prelude.{
  ◌≡◌, ◌≢◌, ◌∙◌, refl, ap, sym, false, Bool-cases, inl, inr, some, String, ◌^^◌, arith,
}
use redis_foxtrot_autoscaler.Prelude.Text.{str_eq, str_same, str_ne}
use redis_foxtrot_autoscaler.Prelude.Int32.{Int32}
use redis_foxtrot_autoscaler.Errors.{service_name_required}
use redis_foxtrot_autoscaler.Cluster.{RedisCluster, RedisClusterSpec}
use redis_foxtrot_autoscaler.Cluster.Spec.{
  or_int, or_text, set_spec_defaults, set_defaults, validate_spec,
}

-- A field that is set stays, and an empty one gets the default.
pub record Fills {A : Type 0} (empty default v v' : A) : Type 0 where
  pub kept : v ≢ empty → v' ≡ v
  pub filled : v ≡ empty → v' ≡ default

-- The numbers and texts with a default, and the fields that stay as they are: the flags, the masters,
-- the CPU threshold and the selector.
pub record IsCompleted (name : String) (s s' : RedisClusterSpec) : Type 0 where
  pub min_masters : Fills 0 3 s.min_masters s'.min_masters
  pub replicas_per_master : Fills 0 1 s.replicas_per_master s'.replicas_per_master
  pub redis_version : Fills "" "7.2" s.redis_version s'.redis_version
  pub cpu_threshold_low : Fills 0 20 s.cpu_threshold_low s'.cpu_threshold_low
  pub memory_threshold : Fills 0 70 s.memory_threshold s'.memory_threshold
  pub memory_threshold_low : Fills 0 30 s.memory_threshold_low s'.memory_threshold_low
  pub reshard_timeout : Fills 0 600 s.reshard_timeout_seconds s'.reshard_timeout_seconds
  pub scale_cooldown : Fills 0 60 s.scale_cooldown_seconds s'.scale_cooldown_seconds
  pub prometheus_url :
      Fills "" "http://prometheus-operated.monitoring.svc:9090" s.prometheus_url s'.prometheus_url
  pub query_interval : Fills 0 15 s.metrics_query_interval s'.metrics_query_interval
  pub service_name : Fills "" (name ^^ "-headless") s.service_name s'.service_name
  pub stateful_set_name : Fills "" name s.stateful_set_name s'.stateful_set_name
  pub masters : s'.masters ≡ s.masters
  pub cpu_threshold : s'.cpu_threshold ≡ s.cpu_threshold
  pub auto_scale : s'.auto_scale_enabled ≡ s.auto_scale_enabled
  pub existing : s'.existing_cluster ≡ s.existing_cluster
  pub selector : s'.pod_selector ≡ s.pod_selector
  pub managed : s'.manage_stateful_set ≡ s.manage_stateful_set

or_int-Fills : (v d : Int32) → Fills 0 d v (or_int v d)
or_int-Fills v d = record { kept = λ h. ground arith; filled = λ h. rw h refl }

or_text-Fills : (v d : String) → Fills "" d v (or_text v d)
or_text-Fills v d = record {
  kept = λ h. elim (Bool-cases (str_eq v "")) [
    | inl same ↦ absurd (h (str_same v "" same))
    | inr other ↦ rw other refl
  ];
  filled = λ h. rw h refl;
}

completes : (c : RedisCluster) → IsCompleted c.name c.spec (set_defaults c).spec
unfolding set_defaults set_spec_defaults
completes c = record {
  min_masters = or_int-Fills c.spec.min_masters 3;
  replicas_per_master = or_int-Fills c.spec.replicas_per_master 1;
  redis_version = or_text-Fills c.spec.redis_version "7.2";
  cpu_threshold_low = or_int-Fills c.spec.cpu_threshold_low 20;
  memory_threshold = or_int-Fills c.spec.memory_threshold 70;
  memory_threshold_low = or_int-Fills c.spec.memory_threshold_low 30;
  reshard_timeout = or_int-Fills c.spec.reshard_timeout_seconds 600;
  scale_cooldown = or_int-Fills c.spec.scale_cooldown_seconds 60;
  prometheus_url =
      or_text-Fills c.spec.prometheus_url "http://prometheus-operated.monitoring.svc:9090";
  query_interval = or_int-Fills c.spec.metrics_query_interval 15;
  service_name = or_text-Fills c.spec.service_name (c.name ^^ "-headless");
  stateful_set_name = or_text-Fills c.spec.stateful_set_name c.name;
  masters = refl;
  cpu_threshold = refl;
  auto_scale = refl;
  existing = refl;
  selector = refl;
  managed = refl;
}

other_text : {v w : String} → v ≢ w → str_eq v w ≡ false
other_text {v} {w} h = elim (Bool-cases (str_eq v w)) [
  | inl same ↦ absurd (h (str_same v w same))
  | inr other ↦ other
]

-- The text `s` where there is a first character.
begun : String → String → String
begun s String.[] = ""
begun s (String.◌∷◌ c n) = s

headless_named : (n : String) → (n ^^ "-headless") ≢ ""
unfolding begun
headless_named String.[] e = str_ne "-headless" "" refl (sym (append.nil "-headless") ∙ e)
headless_named (String.◌∷◌ c n) e =
    str_ne "x" "" refl (ap (begun "x") (sym (append.cons c n "-headless") ∙ e))

service_is_named : (n v : String) → str_eq (or_text v (n ^^ "-headless")) "" ≡ false
service_is_named n v = elim (Bool-cases (str_eq v "")) [
  | inl same ↦ rw same (other_text (headless_named n))
  | inr other ↦ rw (other, other) refl
]

never_asks :
    (s : RedisClusterSpec)
    → str_eq s.service_name "" ≡ false
    → validate_spec s ≢ some service_name_required
unfolding validate_spec
never_asks s h = ground arith

-- SetDefaults keeps every number and text that is set, gives every empty one the default that the
-- markers of the type document, or the one made of the cluster's name for the service and the
-- stateful set, and changes no flag, and neither the masters, the CPU threshold nor the selector;
-- and ValidateSpec never asks the result for a service name.
pub set_defaults-IsCompleted :
    (c : RedisCluster)
    → IsCompleted c.name c.spec (set_defaults c).spec
      × (validate_spec (set_defaults c).spec ≢ some service_name_required)
unfolding set_defaults set_spec_defaults
set_defaults-IsCompleted c =
    (completes c, never_asks _ (service_is_named c.name c.spec.service_name))
