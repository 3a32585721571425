-- ===== src/ControlPlane/Deletions.antt =====
-- Machines that were deleted by hand, or whose infrastructure is gone: reconcileManualDeletions in
-- internal/controller/controlplane/scale.go.
pub mod Gone
pub mod Creates
use k0smotron.Prelude.{
  String, List, [], ◌∷◌, ◌++◌, Bool, true, false, not, is_some, Option, none, some, ltb, length,
  if◌then◌else◌,
}
use k0smotron.Kube.{Upstream, Api, Error, wrap, Result}
use k0smotron.ControlPlane.Scope.{World}
use k0smotron.ControlPlane.Action.{
  M, pure, gets, modify, raise_option, ◌>>=◌, ◌>>◌, with_context, errors_of, gather,
}
use k0smotron.ControlPlane.Machines.{
  delete_k0s_node_resources, delete_machine_object, remove_machine_from_scope,
}

module _ (u : Upstream) (k : Api) where
  leave_deleted : String → M (List Error)
  leave_deleted m = errors_of (
      with_context (wrap ("error deleting k0s node resources for machine" ∷ m ∷ []))
        (delete_k0s_node_resources u k m))

  -- The loop over the active machines, for one whose infrastructure is gone.
  drop_machine : String → M (List Error)
  drop_machine m = do
    e1 ← errors_of (
        with_context (wrap ("error deleting k0s node resources" ∷ []))
          (delete_k0s_node_resources u k m))
    e2 ←
        errors_of
          (with_context (wrap ("error deleting machine" ∷ [])) (delete_machine_object u k m))
    modify (remove_machine_from_scope m)
    pure (e1 ++ e2)

  drop_unless_exists : String → Bool → M (List Error)
  unfolding drop_machine
  drop_unless_exists m true = pure []
  drop_unless_exists m false = drop_machine m

  drop_if_gone : String → M (List Error)
  unfolding drop_unless_exists
  drop_if_gone m = do
    exists ← gets (λ w. is_some (w.scope.infra_machines m))
    drop_unless_exists m exists

  unfoldable pub reconcile_manual_deletions : M Unit
  unfolding leave_deleted drop_if_gone
  reconcile_manual_deletions = do
    deleted ← gets (λ w.
        if ltb 0 (length w.scope.deleted_machines)
        then u.sorted_by_creation w.machines w.scope.deleted_machines
        else [])
    e1 ← gather leave_deleted deleted
    active ← gets (λ w. w.scope.active_machines)
    e2 ← gather drop_if_gone active
    raise_option (u.new_aggregate (e1 ++ e2))
