-- ===== src/Examples/Choice.antt =====
-- The decision and the choice of pods at the concrete cluster.
use mathlib.Core.List.{Nodup, Nodup-cons, Nodup-nil, mem-cons, not-mem-nil}
use mathlib.Core.Logic.Or
use redis_foxtrot_autoscaler.Prelude.{
  ℕ, ◌≤◌, ◌≡◌, refl, true, false, none, some, ◌<◌, List, [], ◌∷◌, String, ◌%◌, ◌*◌, ◌+◌, ◌==◌, ◌&&◌,
  not, leb, arith, length, select, any, map,
}
use redis_foxtrot_autoscaler.Prelude.Decimal.{
  scan_int, leading_digits, digit_value, value, number, positive, negative, format, digits, render,
  digit_char,
}
use redis_foxtrot_autoscaler.Prelude.Int.{pos}
use redis_foxtrot_autoscaler.Prelude.Text.{strip_prefix, str_ne}
use redis_foxtrot_autoscaler.Prelude.Int32.{le32, half}
use redis_foxtrot_autoscaler.Cluster.Spec.{validate_spec}
use redis_foxtrot_autoscaler.Cluster.Index.{
  pod_name, last_master_name, standby_pod_name, standby_index, total_replicas, last_master_index,
}
use redis_foxtrot_autoscaler.Cluster.Index.Bounds.{groups_in_order, roles_swap}
use redis_foxtrot_autoscaler.Kube.{Job, PodLoad, update_status}
use redis_foxtrot_autoscaler.Jobs.Bootstrap.{pod_address, bootstrap_job}
use redis_foxtrot_autoscaler.Jobs.Bootstrap.Hosts.{below, script_of, bootstrap_job-hosts}
use redis_foxtrot_autoscaler.Decision.{
  check_scale_up, check_scale_down, is_overloaded, is_underutilized,
}
use redis_foxtrot_autoscaler.Decision.ScaleUp.{is_some, check_scale_up_iff}
use redis_foxtrot_autoscaler.Decision.ScaleDown.{check_scale_down_iff, never_both}
use redis_foxtrot_autoscaler.Trigger.{
  trigger_scale_down, is_master_load, scan_index, start_draining,
}
use redis_foxtrot_autoscaler.Trigger.Index.{scan_index-pod_name, is_master_load_iff}
use redis_foxtrot_autoscaler.Trigger.Pairs.{names, IsSound, IsLightest}
use redis_foxtrot_autoscaler.Trigger.Destinations.{trigger_scale_down_choice}
use redis_foxtrot_autoscaler.Examples.World.{
  platform, spec, start, cluster, load, floats, no_nan, sorts,
}

abbrev loads : List (PodLoad ℕ)
loads = load "redis-0" 5 20 ∷ load "redis-1" 5 10 ∷ []

check_scale_up_iff_example :
    is_some (check_scale_up platform spec loads) ≡ any (is_overloaded platform spec) loads
check_scale_up_iff_example = check_scale_up_iff platform spec loads

check_scale_down_iff_example : is_some (check_scale_down platform spec loads) ≡ (
    not (le32 spec.masters spec.min_masters)
    && leb 2 (length (select (is_underutilized platform spec) loads)))
check_scale_down_iff_example = check_scale_down_iff platform spec loads

spec_is_valid : validate_spec spec ≡ none
unfolding validate_spec
spec_is_valid = refl

load_is_low : is_underutilized platform spec (load "redis-0" 5 20) ≡ true
unfolding is_underutilized
load_is_low = refl

never_both_example : is_overloaded platform spec (load "redis-0" 5 20) ≡ false
never_both_example = never_both platform spec floats spec_is_valid (load "redis-0" 5 20) load_is_low

groups_in_order_example :
    (standby_index spec ≡ last_master_index spec + 1)
    × (total_replicas spec ≡ standby_index spec + 1)
    × (total_replicas spec < half)
groups_in_order_example = groups_in_order spec (omega arith) (omega arith)

roles_swap_example :
    (last_master_name (record cluster { spec = record spec { masters = 3 } })
      ≡ standby_pod_name cluster)
    × (standby_pod_name (record cluster { spec = record spec { masters = 1 } })
        ≡ last_master_name cluster)
roles_swap_example = roles_swap cluster (omega arith)

scan_index-pod_name_example : scan_index "redis" (pod_name "redis" 12) ≡ some (pos 12)
scan_index-pod_name_example = scan_index-pod_name "redis" 12 (omega arith)

name_of_1 : "redis-1" ≡ pod_name "redis" 1
unfolding pod_name format digits render digit_char
name_of_1 = refl

is_master_load_iff_example : is_master_load cluster (load "redis-1" 5 10) ≡ (1 % 1 == 0)
is_master_load_iff_example =
    is_master_load_iff cluster (load "redis-1" 5 10) 1 (omega arith) (omega arith) name_of_1

empty_prop : IsProp ⊥
empty_prop = hlevel

loads_are_distinct : Nodup (names loads)
loads_are_distinct = Nodup-cons.1 (
  λ m. Or.elim empty_prop (mem-cons.0 m) (str_ne "redis-0" "redis-1" refl) not-mem-nil,
  Nodup-cons.1 (not-mem-nil, Nodup-nil),
)

two_masters : 2 ≤ length (select (is_master_load cluster) loads)
unfolding is_master_load scan_index scan_int leading_digits digit_value value number positive
    negative strip_prefix
two_masters = omega arith

trigger_scale_down_choice_example :
    let masters = select (is_master_load cluster) loads in
    (d : String × String) × ((trigger_scale_down platform loads start).1.calls
      ≡ update_status
          (record cluster { status = start_draining (last_master_name cluster) d cluster.status })
        ∷ [])
    × IsSound (last_master_name cluster) (names masters) d
    × IsLightest platform (last_master_name cluster) masters d.0
trigger_scale_down_choice_example =
    trigger_scale_down_choice platform floats sorts start loads loads_are_distinct two_masters
      (λ l m. no_nan l.memory_usage)

bootstrap_job-hosts_example :
    (j : Job) × (bootstrap_job cluster ≡ some j)
    × (j.script ≡ script_of cluster (map (pod_address cluster) (below (2 * (1 + 0)))))
bootstrap_job-hosts_example = bootstrap_job-hosts cluster (omega arith) (omega arith)
