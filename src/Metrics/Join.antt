-- ===== src/Metrics/Join.antt =====
-- Which loads the two metrics give.
use mathlib.Core.List.{Memᴰ}
use redis_foxtrot_autoscaler.Prelude.{
  ◌≡◌, refl, ap, inl, inr, Bool-cases, false, Option, none, some, List, [], ◌∷◌, String, All,
}
use redis_foxtrot_autoscaler.Prelude.Text.{str_eq}
use redis_foxtrot_autoscaler.Kube.{PodLoad}
use redis_foxtrot_autoscaler.Metrics.{lookup, keep_load, join_metrics}

module _ {F : Type 0} (standby : String) (memory : List (String × F)) where
  -- The load joins a CPU usage with the memory usage of the same pod, which is not the standby.
  pub record IsJoined (cpu : List (String × F)) (l : PodLoad F) : Type 0 where
    pub other : str_eq l.pod_name standby ≡ false
    pub cpu_known : Memᴰ (l.pod_name, l.cpu_usage) cpu
    pub memory_known : lookup l.pod_name memory ≡ some l.memory_usage

  later :
      (x : String × F) (cpu : List (String × F)) (ls : List (PodLoad F))
      → All (IsJoined cpu) ls
      → All (IsJoined (x ∷ cpu)) ls
  later x cpu [] all = tt
  later x cpu (l ∷ ls) (j, all) = (
    record { other = j.other; cpu_known = Memᴰ.tail j.cpu_known; memory_known = j.memory_known },
    later x cpu ls all,
  )

  kept-IsJoined :
      (pod : String) (value : F) (cpu : List (String × F)) (ls : List (PodLoad F)) (o : Option F)
      → str_eq pod standby ≡ false
      → lookup pod memory ≡ o
      → All (IsJoined ((pod, value) ∷ cpu)) ls
      → All (IsJoined ((pod, value) ∷ cpu)) (keep_load pod value o ls)
  kept-IsJoined pod value cpu ls none h e all = all
  kept-IsJoined pod value cpu ls (some m) h e all =
      (record { other = h; cpu_known = Memᴰ.head refl; memory_known = e }, all)

  sound : (cpu : List (String × F)) → All (IsJoined cpu) (join_metrics standby memory cpu)
  unfolding join_metrics
  sound [] = tt
  sound ((pod, value) ∷ cpu) =
      let rest = later (pod, value) cpu (join_metrics standby memory cpu) (sound cpu) in
      elim (Bool-cases (str_eq pod standby)) [
        | inl same ↦ rw same rest
        | inr h ↦ rw h (
            kept-IsJoined pod value cpu (join_metrics standby memory cpu) (lookup pod memory) h refl
              rest)
      ]

  keeps :
      (l : PodLoad F) (pod : String) (value : F) (o : Option F) (ls : List (PodLoad F))
      → Memᴰ l ls
      → Memᴰ l (keep_load pod value o ls)
  keeps l pod value none ls m = m
  keeps l pod value (some x) ls m = Memᴰ.tail m

  complete :
      (l : PodLoad F) (cpu : List (String × F))
      → Memᴰ (l.pod_name, l.cpu_usage) cpu
      → str_eq l.pod_name standby ≡ false
      → lookup l.pod_name memory ≡ some l.memory_usage
      → Memᴰ l (join_metrics standby memory cpu)
  unfolding join_metrics
  complete l [] m other known = elim m [ ]
  complete l ((pod, value) ∷ cpu) (Memᴰ.head e) other known =
      rw (← ap (λ (x : String × F). x.0) e, ← ap (λ (x : String × F). x.1) e, other, known)
        (Memᴰ.head refl)
  complete l ((pod, value) ∷ cpu) (Memᴰ.tail m) other known =
      let found = complete l cpu m other known in
      elim (Bool-cases (str_eq pod standby)) [
        | inl same ↦ rw same found
        | inr h ↦
            rw h (keeps l pod value (lookup pod memory) (join_metrics standby memory cpu) found)
      ]

  -- The loads are exactly the pods other than the standby for which both metrics have a value,
  -- each with its two values.
  pub join_metrics_exact :
      (cpu : List (String × F))
      → All (IsJoined cpu) (join_metrics standby memory cpu)
        × ((l : PodLoad F) → IsJoined cpu l → Memᴰ l (join_metrics standby memory cpu))
  join_metrics_exact cpu = (sound cpu, λ l j. complete l cpu j.cpu_known j.other j.memory_known)
