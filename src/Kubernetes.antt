-- ===== src/Kubernetes.antt =====
-- What the controllers see of the Kubernetes API and of the controller runtime: pkg/client/controllers
-- and pkg/sync/manager. The objects are of each controller's own type.
use cluster_registry.Prelude.{String, Bool, false, Option, none, some, ℤ, pos}

-- How a `Get` ends: `client.IgnoreNotFound` tells the last two apart.
pub data Fetched {ℓ} (A : Type ℓ) : Type ℓ where
  fetched : A → Fetched A
  missing : Fetched A
  failed : String → Fetched A

pub record NamespacedName : Type 0 where
  pub namespace : String
  pub name : String

-- `ctrl.Result` with the error beside it, its interval in seconds. An error makes the controller
-- runtime try again.
pub record Reconciled : Type 0 where
  pub requeue : Bool
  pub requeue_after : ℤ
  pub error : Option String

abbrev pub finished : Reconciled
finished = record { requeue = false; requeue_after = pos 0; error = none }

abbrev pub failed_with : String → Reconciled
failed_with e = record { requeue = false; requeue_after = pos 0; error = some e }
