-- ===== src/RebalanceJob/Polling.antt =====
-- The loop of `CreateReshardJob`: that it ends, and what its success means.
use redis_foxtrot_autoscaler.Prelude.{
  ℕ, zero, suc, ◌+◌, ◌≡◌, refl, ap, sym, ◌⊎◌, inl, inr, true, Bool-cases, if_cases, Option, none,
  some, List, ◌∷◌, String, arith,
}
use redis_foxtrot_autoscaler.Prelude.Int32.{lt32}
use redis_foxtrot_autoscaler.Errors.{ApiError}
use redis_foxtrot_autoscaler.Kube.{Key, JobStatus, Response, ok, err}
use redis_foxtrot_autoscaler.RebalanceJob.{
  BatchJob, Call, get_job, delete_job, create_job, Client, RebalanceError, timeout, get_failed,
  create_failed, job_failed, job_key, rebalance_job, Run, watch_status, poll, await, make,
  unless_present, create_reshard_job,
}

-- The calls after `n` ticks that found the job running.
abbrev pub ticks : ℕ → Key → List Call → List Call
ticks zero k h = h
ticks (suc n) k h = ticks n k (get_job k ∷ h)

-- One result, the same for every fuel from `n` on.
pub record Returns (run : ℕ → Option (Option RebalanceError) × List Call) (n : ℕ) : Type 0 where
  pub result : Option RebalanceError
  pub calls : List Call
  pub same : (extra : ℕ) → run (n + extra) ≡ (some result, calls)

suc_plus : (n x : ℕ) → suc n + x ≡ suc (n + x)
suc_plus n x = omega arith

at_once :
    {run : ℕ → Option (Option RebalanceError) × List Call} {n : ℕ} (e : Option RebalanceError)
    (h : List Call)
    → ((extra : ℕ) → run (n + extra) ≡ (some e, h))
    → Returns run n
at_once e h same = record { result = e; calls = h; same = same }

module _ (c : Client) where
  watch-Returns :
      (k : Key) (n : ℕ) (h : List Call) (r : Response JobStatus)
      → Returns (λ fuel. poll c fuel k h) n
      → Returns (λ fuel. watch_status k r (poll c fuel k) h) n
  watch-Returns k n h (err e) rest = at_once (some (get_failed e)) h (λ x. refl)
  watch-Returns k n h (ok j) rest = elim (Bool-cases (lt32 0 j.succeeded)) [
    | inl done ↦ at_once none (delete_job k ∷ h) (λ x. rw done refl)
    | inr more ↦ elim (Bool-cases (lt32 0 j.failed)) [
      | inl bad ↦ at_once (some (job_failed k.name)) h (λ x. rw (more, bad) refl)
      | inr active ↦ record {
        result = rest.result;
        calls = rest.calls;
        same = λ x. rw (more, active) (rest.same x);
      }
    ]
  ]

  poll-Returns :
      (k : Key) (n : ℕ) (h : List Call)
      → c.timed_out (ticks n k h) ≡ true
      → Returns (λ fuel. poll c fuel k h) (suc n)
  unfolding poll
  poll-Returns k zero h over = at_once (some timeout) h (λ x. rw (suc_plus zero x, over) refl)
  poll-Returns k (suc n) h over = elim (Bool-cases (c.timed_out h)) [
    | inl now ↦ at_once (some timeout) h (λ x. rw (suc_plus (suc n) x, now) refl)
    | inr later ↦
        let next = poll-Returns k n (get_job k ∷ h) over in
        let rest = watch-Returns k (suc n) (get_job k ∷ h) (c.get h k) next in
        record {
          result = rest.result;
          calls = rest.calls;
          same = λ x. rw (suc_plus (suc n) x, later) (rest.same x);
        }
  ]

  await-Returns :
      (k : Key) (n : ℕ) (e : Option ApiError) (h : List Call)
      → c.timed_out (ticks n k h) ≡ true
      → Returns (λ fuel. await c fuel k e h) (suc n)
  await-Returns k n (some e) h over = at_once (some (create_failed e)) h (λ x. refl)
  await-Returns k n none h over = poll-Returns k n h over

  -- The calls of the function before its loop.
  abbrev pub before_loop : String → String → String → List Call → List Call
  before_loop namespace cluster_name redis_password h =
      create_job (rebalance_job namespace cluster_name redis_password)
      ∷ get_job (job_key namespace cluster_name)
      ∷ h

  present-Returns :
      (namespace cluster_name redis_password : String) (n : ℕ) (h : List Call)
      → (r : Response JobStatus)
      → let k = job_key namespace cluster_name in
        c.timed_out (ticks n k (before_loop namespace cluster_name redis_password h)) ≡ true
        → Returns
            (λ fuel.
              unless_present r
                (make c fuel k (rebalance_job namespace cluster_name redis_password))
                (get_job k ∷ h))
            (suc n)
  present-Returns ns name password n h (ok j) over = at_once none _ (λ x. refl)
  present-Returns ns name password n h (err e) over =
      let k = job_key ns name in
      let h' = get_job k ∷ h in
      let j = rebalance_job ns name password in
      await-Returns k n (c.create h' j) (create_job j ∷ h') over

  -- If the timeout's channel is taken at the latest after n ticks that found the job running,
  -- CreateReshardJob returns: with every fuel above n it gives the same result and makes the same
  -- calls.
  pub create_reshard_job-Returns :
      (namespace cluster_name redis_password : String) (n : ℕ) (h : List Call)
      → c.timed_out (
          ticks n
            (job_key namespace cluster_name)
            (before_loop namespace cluster_name redis_password h))
        ≡ true
      → Returns (λ fuel. create_reshard_job c fuel namespace cluster_name redis_password h) (suc n)
  unfolding create_reshard_job
  create_reshard_job-Returns ns name password n h over =
      present-Returns ns name password n h (c.get h (job_key ns name)) over

  -- The job has been seen to have succeeded, and has been deleted.
  pub record Finished (k : Key) (h : List Call) : Type 0 where
    pub earlier : List Call
    pub job : JobStatus
    pub calls : h ≡ delete_job k ∷ get_job k ∷ earlier
    pub answer : c.get earlier k ≡ ok job
    pub succeeded : lt32 0 job.succeeded ≡ true

  tick-Finished :
      (k : Key) (fuel : ℕ) (h h' : List Call) (r : Response JobStatus)
      → ((e : poll c fuel k (get_job k ∷ h) ≡ (some none, h')) → Finished k h')
      → c.get h k ≡ r
      → watch_status k r (poll c fuel k) (get_job k ∷ h) ≡ (some none, h')
      → Finished k h'
  tick-Finished k fuel h h' (err x) rest a e = ground arith
  tick-Finished k fuel h h' (ok j) rest a e =
      let P = λ (m : Run). m (get_job k ∷ h) ≡ (some none, h') → Finished k h' in
      let finished : lt32 0 j.succeeded ≡ true → delete_job k ∷ get_job k ∷ h ≡ h' → Finished k h' =
        λ s q. record { earlier = h; job = j; calls = sym q; answer = a; succeeded = s } in
      if_cases {A = Run} P (lt32 0 j.succeeded) _ _ (λ s q. finished s (ap (λ x. x.1) q))
        (λ u. if_cases {A = Run} P (lt32 0 j.failed) _ _ (λ v q. ground arith) (λ v. rest)) e

  poll-Finished :
      (k : Key) (fuel : ℕ) (h h' : List Call) → poll c fuel k h ≡ (some none, h') → Finished k h'
  unfolding poll
  poll-Finished k zero h h' e = ground arith
  poll-Finished k (suc fuel) h h' e =
      if_cases {A = Run} (λ m. m h ≡ (some none, h') → Finished k h') (c.timed_out h) _ _
        (λ over q. ground arith)
        (λ later.
          tick-Finished k fuel h h' (c.get h k) (poll-Finished k fuel (get_job k ∷ h) h') refl)
        e

  make-Finished :
      (k : Key) (fuel : ℕ) (e : Option ApiError) (h h' : List Call)
      → await c fuel k e h ≡ (some none, h')
      → Finished k h'
  make-Finished k fuel (some e) h h' q = ground arith
  make-Finished k fuel none h h' q = poll-Finished k fuel h h' q

  present-Finished :
      (k : Key) (fuel : ℕ) (j : BatchJob) (h h' : List Call) (r : Response JobStatus)
      → unless_present r (make c fuel k j) (get_job k ∷ h) ≡ (some none, h')
      → ((job : JobStatus) × (r ≡ ok job)) ⊎ Finished k h'
  present-Finished k fuel j h h' (ok job) q = inl (job, refl)
  present-Finished k fuel j h h' (err e) q =
      inr (make-Finished k fuel (c.create (get_job k ∷ h) j) (create_job j ∷ get_job k ∷ h) h' q)

  -- CreateReshardJob returns no error only if the first call found the job, or if the last two
  -- calls found that it has succeeded and deleted it.
  pub create_reshard_job-Finished :
      (namespace cluster_name redis_password : String) (fuel : ℕ) (h h' : List Call)
      → create_reshard_job c fuel namespace cluster_name redis_password h ≡ (some none, h')
      → let k = job_key namespace cluster_name in
        ((job : JobStatus) × (c.get h k ≡ ok job)) ⊎ Finished k h'
  unfolding create_reshard_job
  create_reshard_job-Finished ns name password fuel h h' q =
      let k = job_key ns name in
      present-Finished k fuel (rebalance_job ns name password) h h' (c.get h k) q
