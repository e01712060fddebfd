-- ===== src/Constants.antt =====
-- pkg/constants: the names of labels, annotations, finalizers and environment variables.
use vcluster_rancher_operato.Prelude.{String}

abbrev pub annotation_skip_import : String
annotation_skip_import = "loft.sh/vcluster-skip-import"

abbrev pub annotation_uninstall_on_delete : String
annotation_uninstall_on_delete = "loft.sh/uninstall-on-cluster-delete"

abbrev pub label_project_uid : String
label_project_uid = "loft.sh/vcluster-project-uid"

abbrev pub label_project_name : String
label_project_name = "loft.sh/vcluster-project"

abbrev pub label_host_cluster_name : String
label_host_cluster_name = "loft.sh/vcluster-host-cluster"

abbrev pub label_vcluster_service_uid : String
label_vcluster_service_uid = "loft.sh/vcluster-service-uid"

abbrev pub label_parent_role_template_binding : String
label_parent_role_template_binding = "loft.sh/parent-prtb"

abbrev pub label_child_role_template_binding : String
label_child_role_template_binding = "loft.sh/parent-crtb"

abbrev pub label_target_app : String
label_target_app = "loft.sh/target-app"

abbrev pub label_rancher_system_token : String
label_rancher_system_token = "loft.sh/vcluster-rancher-system-token"

abbrev pub label_vcluster_rancher_user : String
label_vcluster_rancher_user = "loft.sh/vcluster-rancher-user"

abbrev pub finalizer_vcluster_app : String
finalizer_vcluster_app = "loft.sh/vcluster-app-cleanup"

abbrev pub annotation_custom_name : String
annotation_custom_name = "platform.vcluster.com/custom-name"

abbrev pub annotation_custom_name_prefix : String
annotation_custom_name_prefix = "platform.vcluster.com/custom-name-prefix"

abbrev pub label_auto_created : String
label_auto_created = "platform.vcluster.com/auto-created"

abbrev pub value_no_rancher_project_on_namespace : String
value_no_rancher_project_on_namespace = "no-rancher-project-on-namespace"

-- env.go
abbrev pub env_fleet_default_workspace : String
env_fleet_default_workspace = "VCLUSTER_FLEET_DEFAULT_WORKSPACE"

abbrev pub env_fleet_project_uid_workspace_mapping : String
env_fleet_project_uid_workspace_mapping = "VCLUSTER_FLEET_PROJ_UID_WORKSPACE_MAPPINGS"

abbrev pub env_fleet_auto_create_workspace : String
env_fleet_auto_create_workspace = "VCLUSTER_FLEET_AUTO_CREATE_WORKSPACE"

abbrev pub env_sync_include_label_keys : String
env_sync_include_label_keys = "VCLUSTER_SYNC_INCLUDE_LABEL_KEYS"

abbrev pub env_sync_exclude_label_keys : String
env_sync_exclude_label_keys = "VCLUSTER_SYNC_EXCLUDE_LABEL_KEYS"
