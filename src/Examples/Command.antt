-- ===== src/Examples/Command.antt =====
-- The whole program, with a manager that only remembers what it is given.
use Prim.Native.String.{◌++◌ as ◌<>◌}
use vcluster_rancher_operato.Prelude.{
  String, ◌≡◌, ◌↔◌, refl, false, Option, none, some, List, [], ◌∷◌,
}
use vcluster_rancher_operato.Errors.{Error, Result, ok}
use vcluster_rancher_operato.Client.{Api}
use vcluster_rancher_operato.Client.Memory.{
  Memory, memory_api, select_objects, create_in, patch_in, delete_in,
}
use vcluster_rancher_operato.Token.{get_token}
use vcluster_rancher_operato.Command.{Flags, default_flags, TlsConfig, manager_options, Runtime}
use vcluster_rancher_operato.Command.Run.{Proceed, proceed, main}
use vcluster_rancher_operato.Command.Http2.{apply_opts, configured, apply-manager_options}
use vcluster_rancher_operato.Command.Run.Parts.{
  watched, Part, controller, watcher, healthz, readyz, Registers, Served,
}
use vcluster_rancher_operato.Command.Run.Served.{all_parts, main-Served}
use vcluster_rancher_operato.Examples.Rancher.{plain_configs, with_token}

-- The objects, and the parts of the manager.
abbrev World : Type 0
World = Memory × List (Part String)

abbrev on_memory : {R : Type 0} → List (Part String) → R × Memory → R × World
on_memory parts (r, m) = (r, (m, parts))

abbrev shared_api : Api
shared_api = record {
  World = World;
  get = λ gvk name namespace w. memory_api.get gvk name namespace w.0;
  list = λ gvk options w. memory_api.list gvk options w.0;
  create = λ object w. on_memory w.1 (create_in object w.0);
  patch = λ changed orig w. on_memory w.1 (patch_in changed orig w.0);
  delete = λ object w. on_memory w.1 (delete_in object w.0);
  new_requirement = λ r. none;
}

abbrev give : Part String → World → Option Error × World
give part (m, parts) = (none, (m, part ∷ parts))

abbrev remembering : Runtime shared_api String
remembering = record {
  CertWatcher = String;
  LocalConfig = String;
  Manager = String;
  join = λ directory name. directory <> ("/" <> name);
  new_cert_watcher = λ certificate key w. (ok certificate, w);
  get_config_or_die = λ w. some "local";
  new_cluster = λ c w. none;
  new_manager = λ c options w. (ok "manager", (w.0, []));
  to_api_version_and_kind = λ gvk. (gvk.group <> ("/" <> gvk.version), gvk.kind);
  complete = λ setup r manager w. give (controller (watched setup) r) w;
  add = λ manager c w. give (watcher c) w;
  add_healthz_check = λ manager name w. give (healthz name) w;
  add_readyz_check = λ manager name w. give (readyz name) w;
  start = λ manager w. (none, w);
}

abbrev parts_of : String → World → List (Part String)
parts_of manager w = w.1

remembers : Registers remembering
remembers = record {
  parts = parts_of;
  new-parts = λ c options m w e. refl;
  setup-parts = λ setup r m w e. refl;
  add-parts = λ m c w e. refl;
  healthz-parts = λ m name w e. refl;
  readyz-parts = λ m name w e. refl;
}

abbrev generate_token : World → Result String
generate_token w = ok "secret"

abbrev no_environment : String → String
no_environment key = ""

-- With a certificate for the metrics.
abbrev flags : Flags
flags = record default_flags { metrics_cert_path = "/certs" }

abbrev at_start : World
at_start = (with_token, [])

run : World → Option Proceed × World
unfolding main select_objects create_in delete_in
run w = main shared_api plain_configs remembering generate_token no_environment flags w

run-at_start : (run at_start).0 ≡ some proceed
unfolding run
run-at_start = refl

main-Served_example :
    (webhook metrics : Option String) × (rancher_token : String) × (m : String) × (v : World)
    × ((webhook ≡ none) ↔ (flags.webhook_cert_path ≡ ""))
    × ((metrics ≡ none) ↔ (flags.metrics_cert_path ≡ ""))
    × ((get_token shared_api generate_token v).0 ≡ ok rancher_token)
    × Served shared_api plain_configs remembering generate_token no_environment flags remembers m (
        all_parts shared_api plain_configs remembering generate_token no_environment flags remembers
          webhook metrics rancher_token)
unfolding run
main-Served_example =
    main-Served shared_api plain_configs remembering generate_token no_environment flags remembers
      at_start run-at_start

abbrev certificate : String
certificate = "/certs/tls.crt"

abbrev any_config : TlsConfig String
any_config = record { next_protos = "h2" ∷ []; get_certificate = none }

apply-manager_options_example :
    let options = manager_options flags none (some certificate) in
    (apply_opts options.webhook_tls_opts any_config ≡ configured false none any_config)
    × (apply_opts options.metrics_tls_opts any_config
        ≡ configured false (some certificate) any_config)
apply-manager_options_example = apply-manager_options flags none (some certificate) any_config
