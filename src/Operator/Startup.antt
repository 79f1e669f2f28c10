-- ===== src/Operator/Startup.antt =====
-- The start of the operator as a list of calls, of which the process makes the longest prefix that
-- succeeds, and the first one that fails.
use redis_foxtrot_autoscaler.Prelude.{
  ◌≡◌, refl, ap, Option, none, some, List, [], ◌∷◌, ◌++◌, String, if◌then◌else◌, inl, inr,
  Option-cases, Bool-cases,
}
use redis_foxtrot_autoscaler.Prelude.Text.{str_eq}
use redis_foxtrot_autoscaler.Errors.{ApiError}
use redis_foxtrot_autoscaler.Operator.{
  Flags, Watcher, Step, add_to_scheme, client_go, cache, monitoring, new_watcher, add_watcher,
  get_config, start_manager, new_manager, complete, add_healthz_check, add_readyz_check, Ending,
  returned, exited, panicked, Libraries, Boot, proceed, watcher, manager_options, redis_controller,
  setup_with_manager, run_manager, main, init, program,
}

-- The newest call_library stands first.
abbrev pub onto : List Step → List Step → List Step
onto [] h = h
onto (x ∷ xs) h = onto xs (x ∷ h)

-- How the process ends when a call_library fails.
abbrev pub failed : Step → ApiError → Ending
failed (add_to_scheme g) e = panicked e
failed _ e = exited 1

abbrev pub each : (Watcher → Step) → Option Watcher → List Step
each f none = []
each f (some w) = f w ∷ []

-- What follows the watchers.
abbrev pub managed : Flags → Option Watcher → Option Watcher → List Step
managed f w m =
    get_config
    ∷ new_manager (manager_options f w m)
    ∷ complete redis_controller
    ∷ (each add_watcher m
        ++ (each add_watcher w
            ++ (add_healthz_check "healthz" ∷ add_readyz_check "readyz" ∷ start_manager ∷ [])))

module _ (l : Libraries) where
  -- Every call_library has succeeded, after the calls before it.
  abbrev pub Succeeded : List Step → Type 0
  Succeeded [] = Unit
  Succeeded (x ∷ h) = (l.error h x ≡ none) × Succeeded h

  abbrev pub asked : String → String → String → Option Watcher
  asked path name key = if str_eq path "" then none else some (watcher l path name key)

  abbrev pub webhook_watcher : Flags → Option Watcher
  webhook_watcher f = asked f.webhook_cert_path f.webhook_cert_name f.webhook_cert_key

  abbrev pub metrics_watcher : Flags → Option Watcher
  metrics_watcher f = asked f.metrics_cert_path f.metrics_cert_name f.metrics_cert_key

  -- All calls of a start in which nothing fails.
  abbrev pub startup : Flags → List Step
  startup f =
      add_to_scheme client_go
      ∷ add_to_scheme cache
      ∷ add_to_scheme monitoring
      ∷ (each new_watcher (webhook_watcher f)
          ++ (each new_watcher (metrics_watcher f)
              ++ managed f (webhook_watcher f) (metrics_watcher f)))

  -- The calls of a plan in order, up to the first one that fails.
  pub data Stopped (plan h : List Step) : Ending × List Step → Type 0 where
    completes : Succeeded (onto plan h) → Stopped plan h (returned, onto plan h)
    fails :
        (before later : List Step) (x : Step) (e : ApiError)
        → plan ≡ before ++ (x ∷ later)
        → Succeeded (onto before h)
        → l.error (onto before h) x ≡ some e
        → Stopped plan h (failed x e, x ∷ onto before h)

  perform : List Step → Boot
  perform [] h = (returned, h)
  perform (x ∷ xs) h = proceed (failed x) (l.error h x) (perform xs) (x ∷ h)

  later-Stopped :
      (x : Step) {plan h : List Step} {r : Ending × List Step}
      → Stopped plan (x ∷ h) r
      → Stopped (x ∷ plan) h r
  later-Stopped x (completes s) = completes s
  later-Stopped x (fails before later y e eq s failure) =
      fails (x ∷ before) later y e (ap (λ ys. x ∷ ys) eq) s failure

  perform-Stopped : (plan h : List Step) → Succeeded h → Stopped plan h (perform plan h)
  unfolding perform
  perform-Stopped [] h s = completes s
  perform-Stopped (x ∷ plan) h s = elim (Option-cases (l.error h x)) [
    | inl e ↦ rw e (later-Stopped x (perform-Stopped plan (x ∷ h) (e, s)))
    | inr (bad, e) ↦ rw e (fails [] plan x bad refl s e)
  ]

  program-performs : (f : Flags) (h : List Step) → program l f h ≡ perform (startup f) h
  unfolding program init main run_manager setup_with_manager perform
  program-performs f h = elim (Bool-cases (str_eq f.webhook_cert_path "")) [
    | inl w ↦ elim (Bool-cases (str_eq f.metrics_cert_path "")) [
      | inl m ↦ rw (w, m) refl
      | inr m ↦ rw (w, m) refl
    ]
    | inr w ↦ elim (Bool-cases (str_eq f.metrics_cert_path "")) [
      | inl m ↦ rw (w, m) refl
      | inr m ↦ rw (w, m) refl
    ]
  ]

  -- The process makes the calls of its start in order, and nothing else, up to the first one that
  -- fails: it returns if none does, panics if that one registers types, and exits with code 1
  -- otherwise.
  pub program-Stopped : (f : Flags) → Stopped (startup f) [] (program l f [])
  program-Stopped f = rw (program-performs f []) (perform-Stopped (startup f) [] tt)
