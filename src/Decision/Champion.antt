-- ===== src/Decision/Champion.antt =====
-- What the loop of `checkScaleUpCondition` holds: the pod over a threshold that no other one exceeds.
use mathlib.Core.List.{Memᴰ}
use redis_foxtrot_autoscaler.Prelude.{
  ◌≡◌, refl, ◌⊎◌, inl, inr, Bool, true, false, ◌||◌, List, [], ◌∷◌, arith, All, Bool-cases,
}
use redis_foxtrot_autoscaler.Prelude.Text.{str_eq}
use redis_foxtrot_autoscaler.Cluster.{RedisClusterSpec}
use redis_foxtrot_autoscaler.Kube.{Platform, PodLoad, FloatLaws}
use redis_foxtrot_autoscaler.Decision.{is_overloaded, watch, watch_all}

abbrev pub IsNamed : {F : Type 0} → PodLoad F → Type 0
IsNamed l = str_eq l.pod_name "" ≡ false

module _ {F : Type 0} (p : Platform F) (spec : RedisClusterSpec) where
  abbrev pub Unbeaten : PodLoad F → PodLoad F → Type 0
  Unbeaten t l = is_overloaded p spec l ≡ true → p.less t.memory_usage l.memory_usage ≡ false

  -- What the loop has found over `ls`, when it holds the pod `t` before.
  pub record Champion (t : PodLoad F) (ls : List (PodLoad F)) (r : Bool × PodLoad F) : Type 0 where
    pub flag : r.0 ≡ true
    pub source : (r.1 ≡ t) ⊎ (Memᴰ r.1 ls × (is_overloaded p spec r.1 ≡ true))
    pub before : p.less r.1.memory_usage t.memory_usage ≡ false
    pub unbeaten : All (Unbeaten r.1) ls

  watch_keep :
      (l t : PodLoad F)
      → IsNamed t
      → p.less t.memory_usage l.memory_usage ≡ false
      → watch p spec l (true, t) ≡ (true, t)
  unfolding watch
  watch_keep l t n h = ground arith

  pub watch_quiet :
      (l : PodLoad F) (acc : Bool × PodLoad F)
      → is_overloaded p spec l ≡ false
      → watch p spec l acc ≡ acc
  unfolding watch
  watch_quiet l acc h = ground arith

  pub watch_take :
      (l t : PodLoad F) (b : Bool)
      → is_overloaded p spec l ≡ true
      → (str_eq t.pod_name "" || p.less t.memory_usage l.memory_usage) ≡ true
      → watch p spec l (b, t) ≡ (true, l)
  unfolding watch
  watch_take l t b o h = ground arith

  module _ (laws : FloatLaws p) where
    open laws use {nan, irreflexive, transitive, negative, nan_below}

    -- A pod whose memory usage is no number is never replaced.
    nan_stays :
        (ls : List (PodLoad F)) (t : PodLoad F)
        → IsNamed t
        → nan t.memory_usage ≡ true
        → watch_all p spec ls (true, t) ≡ (true, t)
    unfolding watch_all
    nan_stays [] t n h = refl
    nan_stays (l ∷ ls) t n h =
        rw (watch_keep l t n (nan_below t.memory_usage l.memory_usage h)) (nan_stays ls t n h)

    nan-Unbeaten :
        (ls : List (PodLoad F)) (t : PodLoad F) → nan t.memory_usage ≡ true → All (Unbeaten t) ls
    nan-Unbeaten [] t h = tt
    nan-Unbeaten (l ∷ ls) t h =
        (λ o. nan_below t.memory_usage l.memory_usage h, nan-Unbeaten ls t h)

    nan-Champion :
        (ls : List (PodLoad F)) (t : PodLoad F)
        → IsNamed t
        → nan t.memory_usage ≡ true
        → Champion t ls (watch_all p spec ls (true, t))
    nan-Champion ls t n h = rw (nan_stays ls t n h) (record {
      flag = refl;
      source = inl refl;
      before = irreflexive t.memory_usage;
      unbeaten = nan-Unbeaten ls t h;
    })

    prepend :
        (l t : PodLoad F) (ls : List (PodLoad F)) (r : Bool × PodLoad F)
        → Champion t ls r
        → Unbeaten r.1 l
        → Champion t (l ∷ ls) r
    prepend l t ls r c u = record {
      flag = c.flag;
      source = elim (c.source) [ inl e ↦ inl e | inr m ↦ inr (Memᴰ.tail m.0, m.1) ];
      before = c.before;
      unbeaten = (u, c.unbeaten);
    }

    replace :
        (l t : PodLoad F) (ls : List (PodLoad F)) (r : Bool × PodLoad F)
        → Champion l ls r
        → is_overloaded p spec l ≡ true
        → p.less t.memory_usage l.memory_usage ≡ true
        → Champion t (l ∷ ls) r
    replace l t ls r c o lt = record {
      flag = c.flag;
      source =
          inr (elim (c.source) [ inl e ↦ (Memᴰ.head e, rw e o) | inr m ↦ (Memᴰ.tail m.0, m.1) ]);
      before = elim (Bool-cases (p.less r.1.memory_usage t.memory_usage)) [
        | inl y ↦ cc (transitive r.1.memory_usage t.memory_usage l.memory_usage y lt, c.before)
        | inr n ↦ n
      ];
      unbeaten = (λ _. c.before, c.unbeaten);
    }

    pub champion :
        (ls : List (PodLoad F)) (t : PodLoad F)
        → IsNamed t
        → All IsNamed ls
        → Champion t ls (watch_all p spec ls (true, t))
    unfolding watch_all
    champion [] t n ns = record {
      flag = refl;
      source = inl refl;
      before = irreflexive _;
      unbeaten = tt;
    }
    champion (l ∷ ls) t n ns = elim (Bool-cases (nan t.memory_usage)) [
      | inl h ↦ nan-Champion (l ∷ ls) t n h
      | inr h ↦ elim (Bool-cases (is_overloaded p spec l)) [
        | inr quiet ↦
            rw (watch_quiet l (true, t) quiet) (prepend l t ls _ (champion ls t n ns.1) (λ o. cc))
        | inl o ↦ elim (Bool-cases (p.less t.memory_usage l.memory_usage)) [
          | inl lt ↦
              rw (watch_take l t true o (rw (n, lt)))
                (replace l t ls _ (champion ls l ns.0 ns.1) o lt)
          | inr ge ↦
              let rest = champion ls t n ns.1 in
              rw (watch_keep l t n ge)
                (prepend l t ls _ rest (λ _. negative _ t.memory_usage _ h rest.before ge))
        ]
      ]
    ]
