-- ===== src/Services/Defs.antt =====
-- The fields of `Handler` in pkg/services/handler.go that its methods read; the clients are the
-- parameter `Api` of the modules that call them.
use vcluster_rancher_operato.Prelude.{String}
use vcluster_rancher_operato.Config.{Config}

pub record Handler : Type 0 where
  pub cluster_name : String
  pub config : Config
