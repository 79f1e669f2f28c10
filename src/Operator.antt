-- ===== src/Operator.antt =====
-- cmd/main.go, and `SetupWithManager` of internal/controller/rediscluster_controller.go: the flags, the
-- options of the two servers, and the calls of controller-runtime in their order.
pub mod Startup
pub mod Http
use redis_foxtrot_autoscaler.Prelude.{
  ℕ, Bool, true, false, Option, none, some, List, [], ◌∷◌, ◌++◌, String, if◌then◌else◌,
}
use redis_foxtrot_autoscaler.Prelude.Text.{str_eq}
use redis_foxtrot_autoscaler.Errors.{ApiError}

-- The command line, without the options of the logger.
pub record Flags : Type 0 where
  pub metrics_addr : String
  pub probe_addr : String
  pub enable_leader_election : Bool
  pub secure_metrics : Bool
  pub webhook_cert_path : String
  pub webhook_cert_name : String
  pub webhook_cert_key : String
  pub metrics_cert_path : String
  pub metrics_cert_name : String
  pub metrics_cert_key : String
  pub enable_http2 : Bool

abbrev pub default_flags : Flags
default_flags = record {
  metrics_addr = "0";
  probe_addr = ":8081";
  enable_leader_election = false;
  secure_metrics = true;
  webhook_cert_path = "";
  webhook_cert_name = "tls.crt";
  webhook_cert_key = "tls.key";
  metrics_cert_path = "";
  metrics_cert_name = "tls.crt";
  metrics_cert_key = "tls.key";
  enable_http2 = false;
}

-- The two files that a `certwatcher.CertWatcher` is made with.
pub record Watcher : Type 0 where
  pub certificate : String
  pub key : String

-- The fields of `tls.Config` that the options set.
pub record TlsConfig : Type 0 where
  pub next_protos : List String
  pub get_certificate : Option Watcher

-- `func(*tls.Config)`
abbrev pub TlsOption : Type 0
TlsOption = TlsConfig → TlsConfig

abbrev pub disable_http2 : TlsOption
disable_http2 config = record config { next_protos = "http/1.1" ∷ [] }

abbrev pub watch_certificate : Watcher → TlsOption
watch_certificate w config = record config { get_certificate = some w }

abbrev pub tls_opts : Flags → List TlsOption
tls_opts f = if f.enable_http2 then [] else disable_http2 ∷ []

-- `append` of the option where there is a watcher. No two slices share their array here: `tlsOpts` has
-- at most one element and no room for another.
abbrev pub append_watcher : List TlsOption → Option Watcher → List TlsOption
append_watcher opts none = opts
append_watcher opts (some w) = opts ++ (watch_certificate w ∷ [])

-- `metricsserver.Options`; `filter_provider` says whether the requests are authenticated and authorised.
pub record MetricsOptions : Type 0 where
  pub bind_address : String
  pub secure_serving : Bool
  pub tls_opts : List TlsOption
  pub filter_provider : Bool

abbrev pub metrics_options : Flags → Option Watcher → MetricsOptions
metrics_options f w = record {
  bind_address = f.metrics_addr;
  secure_serving = f.secure_metrics;
  tls_opts = append_watcher (tls_opts f) w;
  filter_provider = f.secure_metrics;
}

-- `ctrl.Options`, with the options of the webhook server.
pub record ManagerOptions : Type 0 where
  pub metrics : MetricsOptions
  pub webhook_tls_opts : List TlsOption
  pub health_probe_bind_address : String
  pub leader_election : Bool
  pub leader_election_id : String

abbrev pub manager_options : Flags → Option Watcher → Option Watcher → ManagerOptions
manager_options f webhook_watcher metrics_watcher = record {
  metrics = metrics_options f metrics_watcher;
  webhook_tls_opts = append_watcher (tls_opts f) webhook_watcher;
  health_probe_bind_address = f.probe_addr;
  leader_election = f.enable_leader_election;
  leader_election_id = "4435d7a2.example.com";
}

-- The groups of types that `init` registers, and the types that the controller watches.
pub data Group : Type 0 where
  client_go cache monitoring : Group

pub data Kind : Type 0 where
  redis_cluster stateful_set service config_map job service_monitor : Kind

-- What `NewControllerManagedBy(mgr)` is told before `Complete`.
pub record Controller : Type 0 where
  pub name : String
  pub for : Kind
  pub owns : List Kind

abbrev pub redis_controller : Controller
redis_controller = record {
  name = "rediscluster";
  for = redis_cluster;
  owns = stateful_set ∷ service ∷ config_map ∷ job ∷ service_monitor ∷ [];
}

-- The calls of the libraries that can fail.
pub data Step : Type 0 where
  add_to_scheme : Group → Step
  new_watcher add_watcher : Watcher → Step
  get_config start_manager : Step
  new_manager : ManagerOptions → Step
  complete : Controller → Step
  add_healthz_check add_readyz_check : String → Step

-- How the process ends: `main` returns, `os.Exit`, or a panic of `utilruntime.Must`.
pub data Ending : Type 0 where
  returned : Ending
  exited : ℕ → Ending
  panicked : ApiError → Ending

-- The libraries: `filepath.Join`, and the error of each call, which may depend on the calls before it.
pub record Libraries : Type 0 where
  pub join : String → String → String
  pub error : List Step → Step → Option ApiError

abbrev pub Boot : Type 0
Boot = List Step → Ending × List Step

abbrev pub proceed : (ApiError → Ending) → Option ApiError → Boot → Boot
proceed bad none next h = next h
proceed bad (some e) next h = (bad e, h)

module _ (l : Libraries) where
  abbrev pub call_library : (ApiError → Ending) → Step → Boot → Boot
  call_library bad x next h = proceed bad (l.error h x) next (x ∷ h)

  -- `utilruntime.Must(err)`
  abbrev pub must : Step → Boot → Boot
  must = call_library panicked

  -- `if err != nil { os.Exit(1) }`
  abbrev pub attempt : Step → Boot → Boot
  attempt = call_library (λ e. exited 1)

  abbrev pub watcher : String → String → String → Watcher
  watcher path name key = record { certificate = l.join path name; key = l.join path key }

  -- `if len(path) > 0 { ... certwatcher.New ... }`
  abbrev pub watch_files : String → String → String → (Option Watcher → Boot) → Boot
  watch_files path name key next =
      if str_eq path ""
      then next none
      else attempt (new_watcher (watcher path name key)) (next (some (watcher path name key)))

  -- `if watcher != nil { ... mgr.Add(watcher) ... }`
  abbrev pub add : Option Watcher → Boot → Boot
  add none next = next
  add (some w) next = attempt (add_watcher w) next

  abbrev pub finish : Boot
  finish h = (returned, h)

  unfoldable pub setup_with_manager : Boot → Boot
  setup_with_manager next = attempt (complete redis_controller) next

  -- From `ctrl.NewManager` on; `GetConfigOrDie` reads the config, and exits with the
  -- same code where it cannot.
  unfoldable pub run_manager : Flags → Option Watcher → Option Watcher → Boot
  run_manager f webhook_watcher metrics_watcher = attempt get_config (
      attempt (new_manager (manager_options f webhook_watcher metrics_watcher)) (
        setup_with_manager (
          add metrics_watcher (
            add webhook_watcher (
              attempt (add_healthz_check "healthz")
                (attempt (add_readyz_check "readyz") (attempt start_manager finish)))))))

  unfoldable pub main : Flags → Boot
  main f =
      watch_files f.webhook_cert_path f.webhook_cert_name f.webhook_cert_key (λ webhook_watcher.
        watch_files f.metrics_cert_path f.metrics_cert_name f.metrics_cert_key
          (λ metrics_watcher. run_manager f webhook_watcher metrics_watcher))

  -- `init` runs before `main`.
  unfoldable pub init : Boot → Boot
  init next =
      must (add_to_scheme client_go)
        (must (add_to_scheme cache) (must (add_to_scheme monitoring) next))

  unfoldable pub program : Flags → Boot
  program f = init (main f)
