-- ===== src/Clusters/TargetApp.antt =====
-- The target app that `getRancherResources` writes on a management cluster and `SyncCleanup` reads.
use vcluster_rancher_operato.Prelude.{◌≡◌, refl}
use vcluster_rancher_operato.Strings.Laws.{Lacks}
use vcluster_rancher_operato.Maps.{get}
use vcluster_rancher_operato.Errors.{ok}
use vcluster_rancher_operato.Kube.{Service}
use vcluster_rancher_operato.Services.Resources.{target_app}
use vcluster_rancher_operato.Clusters.Halves.{parse_halves, parse_halves-ok_iff}

-- Where neither annotation of the Helm release holds "_", parsing the target app of a service gives
-- back the release's namespace and name.
pub parse_halves-target_app :
    (service : Service)
    → Lacks b'_' (get service.annotations "meta.helm.sh/release-namespace")
    → Lacks b'_' (get service.annotations "meta.helm.sh/release-name")
    → parse_halves (target_app service) b'_'
      ≡ ok (
        get service.annotations "meta.helm.sh/release-namespace",
        get service.annotations "meta.helm.sh/release-name",
      )
unfolding target_app
parse_halves-target_app service in_namespace in_name =
    (parse_halves-ok_iff "_" (target_app service) _ _).1 (refl, in_namespace, in_name)
