-- ===== src/Examples/Config.antt =====
-- Configurations read from the environment.
use vcluster_rancher_operato.Prelude.{String, ◌≡◌, refl, true, [], ◌∷◌}
use vcluster_rancher_operato.Strings.Laws.{Lacks, lacks, lacks-Lacks}
use vcluster_rancher_operato.Strings.{has_suffix}
use vcluster_rancher_operato.Config.{load_config_from_env}
use vcluster_rancher_operato.Config.Laws.{
  Values, exact, with_prefix, IsRenderable, environment, config_of,
  load_config_from_env-environment,
}

abbrev values : Values
values = record {
  default_workspace = "fleet-default";
  auto_create = true;
  mappings = ("p-1", "team-a") ∷ ("p-2", "team-b") ∷ [];
  include = exact "environment" ∷ with_prefix "org.company/" ∷ [];
  exclude = exact "org.company/internal" ∷ [];
}

lacks_both : (s : String) → lacks b',' s ≡ true → lacks b':' s ≡ true → Lacks b',' s × Lacks b':' s
lacks_both s h k = (lacks-Lacks b',' s h, lacks-Lacks b':' s k)

values-IsRenderable : IsRenderable values
unfolding has_suffix
values-IsRenderable = record {
  mappings = (
    (lacks_both "p-1" refl refl, lacks_both "team-a" refl refl),
    ((lacks_both "p-2" refl refl, lacks_both "team-b" refl refl), tt),
  );
  include =
      ((lacks-Lacks b',' "environment" refl, refl), (lacks-Lacks b',' "org.company/" refl, tt));
  exclude = ((lacks-Lacks b',' "org.company/internal" refl, refl), tt);
}

load_config_from_env-environment_example :
    load_config_from_env (environment values) ≡ config_of values
load_config_from_env-environment_example =
    load_config_from_env-environment values values-IsRenderable
