-- ===== src/Services/Provisioning/Workspace.antt =====
-- When Fleet workspaces are made.
use vcluster_rancher_operato.Prelude.{String, ◌≡◌, ◌↔◌, false, none, arith}
use vcluster_rancher_operato.Errors.{is_err}
use vcluster_rancher_operato.Unstructured.{fleet_workspace_management_cattle}
use vcluster_rancher_operato.Client
use vcluster_rancher_operato.Client.{Api}
use vcluster_rancher_operato.Services.Defs.{Handler}
use vcluster_rancher_operato.Services.Provisioning.{ensure_fleet_workspace}

-- Without automatic creation nothing is written, and a workspace is accepted exactly when it can be
-- read.
pub ensure_fleet_workspace_manual :
    (A : Api) (h : Handler) (namespace : String) (w : A.World)
    → h.config.fleet_auto_create_workspace ≡ false
    → let (e, w') = ensure_fleet_workspace A h namespace w in
      (w' ≡ w)
      × ((e ≡ none)
          ↔ (is_err (Client.get A fleet_workspace_management_cattle namespace "" w) ≡ false))
unfolding ensure_fleet_workspace
ensure_fleet_workspace_manual A h namespace w manual = ground arith
