-- ===== src/Health/Counts.antt =====
-- The loop that counts the pods, against the lists of pods that it means.
use redis_foxtrot_autoscaler.Prelude.{
  ℕ, ◌+◌, ◌≡◌, ◌<◌, Bool, true, false, ◌&&◌, none, List, [], ◌∷◌, arith, length, select, keep, ◌∙◌,
}
use redis_foxtrot_autoscaler.Prelude.Int32.{Int32, half}
use redis_foxtrot_autoscaler.Kube.{Pod}
use redis_foxtrot_autoscaler.Standby.{is_running}
use redis_foxtrot_autoscaler.Health.{all_ready, bump, count_pods, judge_pods}

abbrev pub runs : Pod → Bool
runs q = is_running q.phase

abbrev pub serves : Pod → Bool
serves q = is_running q.phase && all_ready q.container_ready

bump-keep :
    (test : Pod → Bool) (b : Bool) (x : Pod) (rest : List Pod) (n : ℕ)
    → bump b n + length rest ≡ n + length (keep test b x rest)
bump-keep test true x rest n = omega arith
bump-keep test false x rest n = omega arith

pub count_pods-length :
    (qs : List Pod) (m n : ℕ)
    → ((count_pods qs (m, n)).0 ≡ m + length (select runs qs))
      × ((count_pods qs (m, n)).1 ≡ n + length (select serves qs))
unfolding count_pods
count_pods-length [] m n = (omega arith, omega arith)
count_pods-length (q ∷ qs) m n =
    let (a, b) = count_pods-length qs (bump (runs q) m) (bump (serves q) n) in
    (
      a ∙ bump-keep runs (runs q) q (select runs qs) m,
      b ∙ bump-keep serves (serves q) q (select serves qs) n,
    )

judge_pods_sound :
    (expected : Int32) (m n : ℕ)
    → judge_pods expected (m, n) ≡ none
    → (expected < half) × (m ≡ expected) × (n ≡ expected)
unfolding judge_pods
judge_pods_sound expected m n h = ground arith

-- The pod count passes only if the expected number of pods run, and as many run with every one of
-- their containers ready.
pub pods_counted :
    (expected : Int32) (qs : List Pod)
    → judge_pods expected (count_pods qs (0, 0)) ≡ none
    → (length (select runs qs) ≡ expected) × (length (select serves qs) ≡ expected)
pods_counted expected qs h =
    let (a, b) = count_pods-length qs 0 0 in
    let (_, m, n) = judge_pods_sound expected (count_pods qs (0, 0)).0 (count_pods qs (0, 0)).1 h in
    (omega (arith, a, m), omega (arith, b, n))
