-- ===== src/ControlPlane/Status/Deleting.antt =====
-- The counts leave the deletion timestamp alone.
use k0smotron.Prelude.{String, ◌≡◌, refl}
use k0smotron.Kube.{Upstream, VersionLib, Error, Result, ok, err}
use k0smotron.ControlPlane.Scope.{World}
use k0smotron.ControlPlane.Status.{
  compute_replicas, finish_status, set_counts, set_version, set_scaling_conditions,
}

module _ (u : Upstream) (v : VersionLib) where
  finish_status-deleting :
      (r : Result Error String) (w : World)
      → (finish_status u v r w).1.scope.kcp.deleting ≡ w.scope.kcp.deleting
  unfolding finish_status set_version set_scaling_conditions
  finish_status-deleting (err e) w = refl
  finish_status-deleting (ok lowest) w = refl

  pub compute_replicas-deleting :
      (w : World) → (compute_replicas u v w).1.scope.kcp.deleting ≡ w.scope.kcp.deleting
  unfolding compute_replicas set_counts
  compute_replicas-deleting w = finish_status-deleting _ _
