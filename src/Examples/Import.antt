-- ===== src/Examples/Import.antt =====
-- A service that is imported to the end.
use vcluster_rancher_operato.Prelude.{◌≡◌, ◌≢◌, refl, none, some, eq_iff, arith}
use vcluster_rancher_operato.Maps.{get, lookup}
use vcluster_rancher_operato.Errors.{ok}
use vcluster_rancher_operato.Constants.{annotation_skip_import}
use vcluster_rancher_operato.Client.Memory.{
  memory_api, find_object, select_objects, create_in, patch_in, delete_in,
}
use vcluster_rancher_operato.Services.Host.Memory.{memory_host, remove_job}
use vcluster_rancher_operato.Services.Provisioning.{ensure_provisioning_cluster}
use vcluster_rancher_operato.Services.Resources.{get_rancher_resources}
use vcluster_rancher_operato.Services.Agent.{ensure_agent_deployed}
use vcluster_rancher_operato.Services.Reconcile.{reconcile}
use vcluster_rancher_operato.Services.Reconcile.Success.{Imported, reconcile-Imported}
use vcluster_rancher_operato.Examples.Data.{
  handler, service, item, ready, orders, orders-HasMembers,
}

no_error : (reconcile memory_api memory_host orders handler item ready).0 ≡ none
unfolding reconcile find_object select_objects create_in patch_in delete_in remove_job
    ensure_provisioning_cluster get_rancher_resources ensure_agent_deployed
no_error = refl

cached : memory_host.get_by_key item.key ready ≡ ok (some service)
unfolding lookup
cached = refl

has_ip : service.cluster_ip ≢ "None"
has_ip e = ground (arith, e, eq_iff "10.0.0.1" "None")

imported : get service.annotations annotation_skip_import ≢ "true"
unfolding get lookup
imported e = ground (arith, e, eq_iff "" "true")

reconcile-Imported_example :
    Imported memory_api memory_host orders handler service ready
      (reconcile memory_api memory_host orders handler item ready).1
reconcile-Imported_example =
    reconcile-Imported memory_api memory_host orders handler service orders-HasMembers item ready
      cached refl has_ip imported no_error
