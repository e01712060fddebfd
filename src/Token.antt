-- ===== src/Token.antt =====
-- pkg/token: the operator's own token for Rancher, and the configurations for host clusters that it
-- gives access to; pkg/rancher/rancher.go for the endpoint. The generator of random tokens, the
-- template engine and clientcmd are parameters.
pub mod Safety
use Prim.Native.String.{◌++◌ as ◌<>◌}
use vcluster_rancher_operato.Prelude.{
  String, ◌==◌, Bool, false, Option, none, some, List, [], ◌∷◌, if◌then◌else◌,
}
use vcluster_rancher_operato.Errors.{Error, Result, ok, err, wrap}
use vcluster_rancher_operato.Constants.{label_rancher_system_token, label_vcluster_rancher_user}
use vcluster_rancher_operato.Unstructured.{
  Unstructured, Fields, end, field, str, token_management_cattle, user_management_cattle,
}
use vcluster_rancher_operato.Client.{Api, create, list_with_label, get_first_with_label}

abbrev pub token_name : String
token_name = "token-vcluster-rancher-operator"

-- The fields of the new token.
abbrev pub token_fields : Unstructured → String → Fields
token_fields system_user token_value =
    field "authProvider" (str "local")
      (field "userId" (str system_user.name) (field "token" (str token_value) end))

-- `rancher.GetClusterEndpoint`
unfoldable pub get_cluster_endpoint : String → String
get_cluster_endpoint cluster_id = "https://rancher.cattle-system/k8s/clusters/" <> cluster_id

-- What the template is executed with.
pub record Data : Type 0 where
  pub cluster_name : String
  pub cluster_id : String
  pub host : String
  pub token : String

-- The text of templates.go.
abbrev pub token_template_text : String
token_template_text =
    "apiVersion: v1\nkind: Config\nclusters:\n- name: \"{{.ClusterName}}\"\n  cluster:\n"
    <> ("    server: \"{{.Host}}\"\n\nusers:\n- name: \"{{.ClusterName}}\"\n  user:\n"
        <> ("    token: \"{{.Token}}\"\n\ncontexts:\n- name: \"{{.ClusterName}}\"\n  context:\n"
            <> ("    user: \"{{.ClusterName}}\"\n    cluster: \"{{.ClusterName}}\"\n\n"
                <> "current-context: \"{{.ClusterName}}\"\n")))

-- html/template, given the text of a template, and clientcmd.
pub record KubeConfigs : Type 1 where
  pub RestConfig : Type 0
  pub execute : String → Data → Result String
  pub rest_config_from_kube_config : String → Result RestConfig
  -- `restConfig.Insecure = true`
  pub set_insecure : RestConfig → RestConfig

module _ (K : KubeConfigs) where
  open K use {RestConfig}

  -- The name of the cluster is empty at first, so it becomes the ID.
  unfoldable pub for_token_based : String → String → String → Result String
  for_token_based cluster_id host token =
      K.execute token_template_text
        (record { cluster_name = cluster_id; cluster_id = cluster_id; host = host; token = token })

  abbrev insecure : Result RestConfig → Result RestConfig
  insecure (ok c) = ok (K.set_insecure c)
  insecure (err e) = err e

  unfoldable pub rest_config_from_token : String → String → Result RestConfig
  unfolding for_token_based get_cluster_endpoint
  rest_config_from_token cluster_id token =
      elim (for_token_based cluster_id (get_cluster_endpoint cluster_id) token) [
        | err e ↦ err e
        | ok kube_config ↦ insecure (K.rest_config_from_kube_config kube_config)
      ]

-- `randomtoken.Generate` is the argument `generate`.
module _ (A : Api) (generate : A.World → Result String) where
  open A use {World}

  abbrev pub token_deleted :
      (World → Option Error × World) → Option Error × World → Option Error × World
  token_deleted rest (none, w) = rest w
  token_deleted rest (some e, w) =
      (some (wrap "failed to delete left over vcluster rancher system tokens" e), w)

  -- The loop over the tokens that are left over.
  pub delete_tokens : List Unstructured → World → Option Error × World
  delete_tokens [] w = (none, w)
  delete_tokens (token ∷ tokens) w = token_deleted (delete_tokens tokens) (A.delete token w)

  abbrev token_created : String → Result Unstructured × World → Result String × World
  token_created token_value (err e, w) = (err e, w)
  token_created token_value (ok token, w) =
      (ok ("token-vcluster-rancher-operator:" <> token_value), w)

  create_token : Unstructured → World → Result String × World
  unfolding create
  create_token system_user w = elim (generate w) [
    | err e ↦ (err e, w)
    | ok token_value ↦ token_created token_value (
        create A token_management_cattle token_name "" false
          ((label_rancher_system_token, "true") ∷ []) [] (token_fields system_user token_value) w)
  ]

  after_deletion : Option Error × World → Result String × World
  unfolding create_token get_first_with_label
  after_deletion (some e, w) = (err e, w)
  after_deletion (none, w) =
      elim (get_first_with_label A user_management_cattle label_vcluster_rancher_user "true" w) [
        | err e ↦ (err e, w)
        | ok system_user ↦ create_token system_user w
      ]

  unfoldable pub get_token : World → Result String × World
  unfolding after_deletion delete_tokens list_with_label
  get_token w =
      elim (list_with_label A token_management_cattle label_rancher_system_token "true" w) [
        | err e ↦ (
          err (
              wrap
                "failed to list tokens with vcluster rancher system token label [\"%s\": \"true\"]"
                e),
          w,
        )
        | ok tokens ↦ after_deletion (delete_tokens tokens w)
      ]
