-- ===== src/Examples/Startup.antt =====
-- The start of the operator, the stand-alone reshard job and the stand-alone query, at concrete answers.
use mathlib.Core.List.{Memᴰ}
use redis_foxtrot_autoscaler.Prelude.{
  ◌≡◌, ◌⊎◌, refl, ◌↔◌, ◌∷◌, [], none, some, List, ◌^^◌, ltb, length,
}
use redis_foxtrot_autoscaler.Kube.{JobStatus, Response, ok, err}
use redis_foxtrot_autoscaler.Errors.{not_found}
use redis_foxtrot_autoscaler.Operator.{
  Flags, default_flags, Libraries, ManagerOptions, manager_options, new_manager, program, init,
  main, run_manager, setup_with_manager,
}
use redis_foxtrot_autoscaler.Operator.Startup.{Stopped, startup, program-Stopped}
use redis_foxtrot_autoscaler.Operator.Http.{OnlyHttp1, program-OnlyHttp1}
use redis_foxtrot_autoscaler.RebalanceJob.{Client, Call, create_reshard_job, job_key, poll}
use redis_foxtrot_autoscaler.RebalanceJob.Polling.{
  Returns, Finished, create_reshard_job-Returns, create_reshard_job-Finished,
}
use redis_foxtrot_autoscaler.Prometheus.{Begins, query_prometheus, query_prometheus_value}
use redis_foxtrot_autoscaler.Examples.World.{platform, number}

-- Nothing fails.
abbrev libraries : Libraries
libraries = record { join = λ dir file. dir ^^ ("/" ^^ file); error = λ h x. none }

abbrev flags : Flags
flags = record default_flags { metrics_cert_path = "/certs" }

program-Stopped_example :
    Stopped libraries (startup libraries flags) [] (program libraries flags [])
program-Stopped_example = program-Stopped libraries flags

abbrev options : ManagerOptions
options =
    manager_options flags none
      (some (record { certificate = "/certs/tls.crt"; key = "/certs/tls.key" }))

manager_made : Memᴰ (new_manager options) (program libraries flags []).1
unfolding program init main run_manager setup_with_manager
manager_made = Memᴰ.tail (Memᴰ.tail (Memᴰ.tail (Memᴰ.tail (Memᴰ.tail (Memᴰ.head refl)))))

program-OnlyHttp1_example : OnlyHttp1 options.metrics.tls_opts × OnlyHttp1 options.webhook_tls_opts
program-OnlyHttp1_example = program-OnlyHttp1 libraries flags options refl manager_made

-- The job is not there at first, then runs, and is seen to have succeeded at the second tick.
abbrev answer : List Call → Response JobStatus
answer [] = err not_found
answer (a ∷ []) = err not_found
answer (a ∷ b ∷ []) = ok (record { succeeded = 0; failed = 0 })
answer (a ∷ b ∷ c ∷ h) = ok (record { succeeded = 1; failed = 0 })

abbrev client : Client
client = record { get = λ h k. answer h; create = λ h j. none; timed_out = λ h. ltb 19 (length h) }

create_reshard_job-Returns_example :
    Returns (λ fuel. create_reshard_job client fuel "default" "redis" "secret" []) 19
create_reshard_job-Returns_example =
    create_reshard_job-Returns client "default" "redis" "secret" 18 [] refl

abbrev final : List Call
final = (create_reshard_job client 3 "default" "redis" "secret" []).1

ends_well : create_reshard_job client 3 "default" "redis" "secret" [] ≡ (some none, final)
unfolding create_reshard_job poll
ends_well = refl

create_reshard_job-Finished_example :
    ((job : JobStatus) × (client.get [] (job_key "default" "redis") ≡ ok job))
    ⊎ Finished client (job_key "default" "redis") final
create_reshard_job-Finished_example =
    create_reshard_job-Finished client "default" "redis" "secret" 3 [] final ends_well

query_prometheus_value_example :
    ((query_prometheus platform "http://prometheus" "up" []).0 ≡ (number 80, none)) ↔ (
      (platform.new_client "http://prometheus" ≡ none)
      × Begins platform (platform.query [] "up") (number 80))
query_prometheus_value_example =
    query_prometheus_value platform "http://prometheus" "up" [] (number 80)
