-- ===== src/Decision/ScaleUp.antt =====
-- When a scale-up is triggered, and which pod triggers it.
use mathlib.Core.List.{Memᴰ}
use redis_foxtrot_autoscaler.Prelude.{
  ◌≡◌, ◌∙◌, refl, inl, inr, Bool, true, false, ◌||◌, Option, none, some, List, [], ◌∷◌, arith, All,
  any, Bool-cases,
}
use redis_foxtrot_autoscaler.Prelude.Text.{str_eq}
use redis_foxtrot_autoscaler.Cluster.{RedisClusterSpec}
use redis_foxtrot_autoscaler.Kube.{Platform, PodLoad, FloatLaws}
use redis_foxtrot_autoscaler.Decision.Champion.{
  Unbeaten, IsNamed, Champion, watch_quiet, watch_take, champion,
}
use redis_foxtrot_autoscaler.Decision.{
  Reason, no_load, is_overloaded, watch, watch_all, reason_of, report, check_scale_up,
}

or_false : (b : Bool) → (b || false) ≡ b
or_false true = refl
or_false false = refl

abbrev pub is_some : {A : Type 0} → Option A → Bool
is_some none = false
is_some (some a) = true

module _ {F : Type 0} (p : Platform F) (spec : RedisClusterSpec) where
  watch-flag :
      (l : PodLoad F) (b : Bool) (t : PodLoad F)
      → (watch p spec l (b, t)).0 ≡ (is_overloaded p spec l || b)
  unfolding watch
  watch-flag l b t = ground arith

  watch_all-flag :
      (ls : List (PodLoad F)) (b : Bool) (t : PodLoad F)
      → (watch_all p spec ls (b, t)).0 ≡ (any (is_overloaded p spec) ls || b)
  unfolding watch_all
  watch_all-flag [] b t = refl
  watch_all-flag (l ∷ ls) b t =
      let (b', t') = watch p spec l (b, t) in
      ground (arith, watch-flag l b t, watch_all-flag ls b' t')

  is_some-report : (r : Bool × PodLoad F) → is_some (report p spec r) ≡ r.0
  is_some-report (true, t) = refl
  is_some-report (false, t) = refl

  -- A scale-up is triggered exactly when some pod is over a threshold.
  pub check_scale_up_iff :
      (ls : List (PodLoad F)) → is_some (check_scale_up p spec ls) ≡ any (is_overloaded p spec) ls
  unfolding check_scale_up
  check_scale_up_iff ls =
      is_some-report (watch_all p spec ls (false, no_load p))
      ∙ watch_all-flag ls false (no_load p)
      ∙ or_false (any (is_overloaded p spec) ls)

  -- What the answer says of the pods: the pod is one of them, is over a threshold, no pod over a
  -- threshold uses more memory, and the reason names the thresholds that it is over.
  abbrev pub Triggers : List (PodLoad F) → Option (PodLoad F × Reason F) → Type 0
  Triggers ls none = All (λ l. is_overloaded p spec l ≡ false) ls
  Triggers ls (some (t, why)) =
      Memᴰ t ls
      × (is_overloaded p spec t ≡ true)
      × All (Unbeaten p spec t) ls
      × (why ≡ reason_of p spec t)

  module _ (laws : FloatLaws p) where
    started :
        (l : PodLoad F) (ls : List (PodLoad F)) (r : Bool × PodLoad F)
        → Champion p spec l ls r
        → is_overloaded p spec l ≡ true
        → Triggers (l ∷ ls) (report p spec r)
    started l ls (true, t) c o = (
      elim (c.source) [ inl e ↦ Memᴰ.head e | inr m ↦ Memᴰ.tail m.0 ],
      elim (c.source) [ inl e ↦ rw e o | inr m ↦ m.1 ],
      (λ _. c.before, c.unbeaten),
      refl,
    )
    started l ls (false, t) c o = cc (c.flag)

    passed :
        (l : PodLoad F) (ls : List (PodLoad F)) (r : Option (PodLoad F × Reason F))
        → is_overloaded p spec l ≡ false
        → Triggers ls r
        → Triggers (l ∷ ls) r
    passed l ls none o t = (o, t)
    passed l ls (some (t, why)) o (m, over, u, e) = (Memᴰ.tail m, over, (λ h. cc, u), e)

    search_on :
        (ls : List (PodLoad F)) (t : PodLoad F)
        → str_eq t.pod_name "" ≡ true
        → All IsNamed ls
        → Triggers ls (report p spec (watch_all p spec ls (false, t)))
    unfolding watch_all
    search_on [] t n ns = tt
    search_on (l ∷ ls) t n ns = elim (Bool-cases (is_overloaded p spec l)) [
      | inl o ↦
          rw (watch_take p spec l t false o (rw n))
            (started l ls _ (champion p spec laws ls l ns.0 ns.1) o)
      | inr quiet ↦
          rw (watch_quiet p spec l (false, t) quiet) (passed l ls _ quiet (search_on ls t n ns.1))
    ]

    -- Where every pod has a name, the pod that triggers a scale-up is one of those over a
    -- threshold, no other such pod exceeds it in memory usage, and the reason is the one for its
    -- load; without such a pod there is no scale-up. A usage may be NaN; the order of float64 is
    -- as documented.
    pub check_scale_up-Triggers :
        (ls : List (PodLoad F)) → All IsNamed ls → Triggers ls (check_scale_up p spec ls)
    unfolding check_scale_up
    check_scale_up-Triggers ls ns = search_on ls (no_load p) refl ns
