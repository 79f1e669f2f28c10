-- ===== src/Decision/ScaleDown.antt =====
-- When a scale-down is triggered, and that no pod counts for both decisions.
use redis_foxtrot_autoscaler.Prelude.{
  ℕ, ◌+◌, ◌≡◌, inl, inr, true, false, not, ◌&&◌, none, List, [], ◌∷◌, arith, Bool-cases, leb,
  length, select,
}
use redis_foxtrot_autoscaler.Prelude.Int32.{Int32, le32, lt32}
use redis_foxtrot_autoscaler.Cluster.{RedisClusterSpec}
use redis_foxtrot_autoscaler.Cluster.Spec.{validate_spec}
use redis_foxtrot_autoscaler.Kube.{Platform, PodLoad, FloatLaws}
use redis_foxtrot_autoscaler.Decision.{
  is_overloaded, is_underutilized, count_underutilized, check_scale_down,
}
use redis_foxtrot_autoscaler.Decision.ScaleUp.{is_some}

module _ {F : Type 0} (p : Platform F) (spec : RedisClusterSpec) where
  count_underutilized-length :
      (ls : List (PodLoad F)) (n : ℕ)
      → count_underutilized p spec ls n ≡ n + length (select (is_underutilized p spec) ls)
  unfolding count_underutilized
  count_underutilized-length [] n = omega arith
  count_underutilized-length (l ∷ ls) n = elim (Bool-cases (is_underutilized p spec l)) [
    | inl h ↦ rw h (omega (arith, count_underutilized-length ls (n + 1)))
    | inr h ↦ rw h (count_underutilized-length ls n)
  ]

  -- A scale-down is triggered exactly when there are more masters than the minimum and at least
  -- two pods are below both low thresholds.
  pub check_scale_down_iff :
      (ls : List (PodLoad F))
      → is_some (check_scale_down p spec ls) ≡ (
          not (le32 spec.masters spec.min_masters)
          && leb 2 (length (select (is_underutilized p spec) ls)))
  unfolding check_scale_down
  check_scale_down_iff ls = rw (count_underutilized-length ls 0) (ground arith)

  apart : (hi lo : Int32) → le32 hi lo ≡ false → lt32 hi lo ≡ false
  apart hi lo h = ground arith

  not_between :
      FloatLaws p
      → (hi lo : Int32) (x : F) → le32 hi lo ≡ false
      → p.less x (p.of_int32 lo) ≡ true
      → p.less (p.of_int32 hi) x ≡ false
  not_between laws hi lo x h low = elim (Bool-cases (p.less (p.of_int32 hi) x)) [
    | inr n ↦ n
    | inl y ↦
        cc
          (laws.transitive (p.of_int32 hi) x (p.of_int32 lo) y low, laws.exact hi lo, apart hi lo h)
  ]

  thresholds :
      validate_spec spec ≡ none
      → (le32 spec.cpu_threshold spec.cpu_threshold_low ≡ false)
        × (le32 spec.memory_threshold spec.memory_threshold_low ≡ false)
  unfolding validate_spec
  thresholds h = ground arith

  -- Under a spec that ValidateSpec accepts, a pod below both low thresholds is over no threshold;
  -- the order of float64 is as documented.
  pub never_both :
      FloatLaws p
      → validate_spec spec ≡ none
      → (l : PodLoad F) → is_underutilized p spec l ≡ true
      → is_overloaded p spec l ≡ false
  unfolding is_underutilized is_overloaded
  never_both laws valid l low =
      let (cpu, memory) = thresholds valid in
      ground (
        arith,
        not_between laws spec.cpu_threshold spec.cpu_threshold_low l.cpu_usage cpu,
        not_between laws spec.memory_threshold spec.memory_threshold_low l.memory_usage memory,
      )
