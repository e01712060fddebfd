-- ===== src/Token/Safety.antt =====
-- What `GetToken` writes.
use vcluster_rancher_operato.Prelude.{String, ◌≡◌, true, false}
use vcluster_rancher_operato.Maps.{get}
use vcluster_rancher_operato.Constants.{label_rancher_system_token, label_vcluster_rancher_user}
use vcluster_rancher_operato.Unstructured.{
  Unstructured, end, field, str, token_management_cattle, user_management_cattle,
}
use vcluster_rancher_operato.Services.Writes.{Write, create_object, delete_object, Writes}

-- A token that carries the operator's label.
abbrev pub IsSystemToken : Unstructured → Type 0
IsSystemToken token =
    (token.gvk ≡ token_management_cattle) × (get token.labels label_rancher_system_token ≡ "true")

-- Created is the operator's token, for a user with the operator's label.
abbrev pub IsTokenWrite : Write → Type 0
IsTokenWrite (create_object object) =
    IsSystemToken object
    × (object.name ≡ "token-vcluster-rancher-operator")
    × (user : Unstructured) × (value : String) × (user.gvk ≡ user_management_cattle)
    × (get user.labels label_vcluster_rancher_user ≡ "true")
    × (object.content
        ≡ field "authProvider" (str "local")
            (field "userId" (str user.name) (field "token" (str value) end)))
IsTokenWrite (delete_object object) = IsSystemToken object
IsTokenWrite _ = true ≡ false
