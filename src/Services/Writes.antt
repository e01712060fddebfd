-- ===== src/Services/Writes.antt =====
-- Sequences of write calls, to say what a handler may change.
use vcluster_rancher_operato.Prelude.{String, ◌≡◌, refl, Bool, true, false, if◌then◌else◌}
use vcluster_rancher_operato.Unstructured.{Unstructured}
use vcluster_rancher_operato.Client.{Api}
use vcluster_rancher_operato.Kube.{InstallJob}
use vcluster_rancher_operato.Services.Host.{HostApi}

pub data Write : Type 0 where
  create_object : Unstructured → Write
  -- the changed object, and the one from which it was changed
  patch_object : Unstructured → Unstructured → Write
  delete_object : Unstructured → Write
  create_job : InstallJob → Write
  -- by namespace and name
  delete_job : String → String → Write

module _ (A : Api) (H : HostApi A.World) where
  -- The world after a write, whether it succeeded or not.
  abbrev pub perform : Write → A.World → A.World
  perform (create_object object) w = (A.create object w).1
  perform (patch_object changed orig) w = (A.patch changed orig w).1
  perform (delete_object object) w = (A.delete object w).1
  perform (create_job job) w = (H.create_job job w).1
  perform (delete_job namespace name) w = (H.delete_job namespace name w).1

  -- The second world comes from the first by writes that are all allowed.
  pub data Writes (Allowed : Write → Type 0) (w : A.World) : A.World → Type 0 where
    nothing : Writes Allowed w w
    then_write :
        {v u : A.World} (x : Write)
        → Writes Allowed w v
        → Allowed x
        → u ≡ perform x v
        → Writes Allowed w u

module _ {A : Api} {H : HostApi A.World} {Allowed : Write → Type 0} where
  pub one_write : (x : Write) (w : A.World) → Allowed x → Writes A H Allowed w (perform A H x w)
  one_write x w allowed = then_write x nothing allowed refl

  pub Writes-trans :
      {w v u : A.World} → Writes A H Allowed w v → Writes A H Allowed v u → Writes A H Allowed w u
  Writes-trans first nothing = first
  Writes-trans first (then_write x second allowed e) =
      then_write x (Writes-trans first second) allowed e

  pub Writes-if :
      {R : Type 0} {w : A.World} (b : Bool) (m n : R × A.World)
      → (b ≡ true → Writes A H Allowed w m.1)
      → (b ≡ false → Writes A H Allowed w n.1)
      → Writes A H Allowed w (if b then m else n).1
  Writes-if true m n first second = first refl
  Writes-if false m n first second = second refl
