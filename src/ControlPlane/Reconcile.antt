-- ===== src/ControlPlane/Reconcile.antt =====
-- One reconciliation of the machines of a control plane: reconcileMachines in
-- internal/controller/controlplane/scale.go, and reconcileDelete in k0s_controlplane_controller.go.
-- The failures that are counted for the availability are not in the struct, and forgotten elsewhere.
pub mod Settled
pub mod OneMachine
pub mod Deletion
use k0smotron.Prelude.{
  String, List, [], ◌∷◌, ◌++◌, Bool, true, false, not, Option, none, some, ◌==◌, length, nat_eq,
  map, update, if◌then◌else◌,
}
use k0smotron.Kube.{
  Upstream, VersionLib, Api, ApiError, not_found, refused, Error, api, plain, wrap, Result, ok, err,
  CtrlResult, zero_result, Machine, delete_machine,
}
use k0smotron.ControlPlane.Scope.{Scope, World}
use k0smotron.ControlPlane.Action.{
  M, pure, fail, gets, modify, ◌>>=◌, ◌>>◌, with_context, deferring, send, gather, errors_of,
  unless_not_found,
}
use k0smotron.ControlPlane.Scaling.{
  is_needed_scale_up, is_needed_scale_down, is_desired_state_reached,
}
use k0smotron.ControlPlane.Machines.{set_up_to_date_machine_condition, remove_pre_terminate_hook}
use k0smotron.ControlPlane.Template.{Codec}
use k0smotron.ControlPlane.Readiness.{preflight_checks, requeue_soon}
use k0smotron.ControlPlane.Replace.{scale_up, scale_down}
use k0smotron.ControlPlane.Retrieval.{retrieve_control_plane_state, table_of}
use k0smotron.ControlPlane.InPlace.{reconcile_inplace_k0s_version_update, wait_a_little}

module _ (u : Upstream) (v : VersionLib) (c : Codec) (k : Api) (gate : Bool) (hook : String) where
  -- The end: the controller comes back until the desired state is reached.
  until_desired : M CtrlResult
  until_desired = do
    s ← gets (λ w. w.scope)
    pure (if not (is_desired_state_reached s) then requeue_soon else zero_result)

  -- After a machine more or less, the state is read again.
  after_scaling : M CtrlResult
  unfolding until_desired
  after_scaling = do
    with_context (wrap ("error re-initializing control plane scope" ∷ []))
        (retrieve_control_plane_state u v c k)
    until_desired

  scale : Scope → M CtrlResult
  unfolding after_scaling until_desired
  scale s =
      if is_needed_scale_up s
      then (do
        with_context (wrap ("error scaling up control plane" ∷ [])) (scale_up u v c k)
        after_scaling)
      else if is_needed_scale_down s
      then (do
        with_context (wrap ("error scaling down control plane" ∷ [])) (scale_down u k)
        after_scaling)
      else until_desired

  after_inplace : CtrlResult → M CtrlResult
  unfolding scale
  after_inplace r = if not (u.is_zero r) then pure r else (do s ← gets (λ w. w.scope); scale s)

  after_preflight : CtrlResult → M CtrlResult
  unfolding after_inplace
  after_preflight r =
      if not (u.is_zero r)
      then pure r
      else (do r' ← reconcile_inplace_k0s_version_update u v c k gate hook; after_inplace r')

  unfoldable pub reconcile_machines : M CtrlResult
  unfolding after_preflight
  reconcile_machines =
      deferring (set_up_to_date_machine_condition u k)
        (do r ← preflight_checks u k; after_preflight r)

-- controllerutil.RemoveFinalizer on the control plane
abbrev remove_finalizer : World → World
remove_finalizer w =
    let s = w.scope in
    let kcp = s.kcp in record w { scope = record s { kcp = record kcp { finalizer = false } } }

module _ (u : Upstream) (k : Api) where
  -- One machine; an error of the deletion skips the hook.
  delete_one : String → M Unit
  delete_one m = do
    e ← send k (delete_machine m)
    unless_not_found e (λ a. wrap ("failed to delete control plane Machine" ∷ m ∷ []) (api a))
    with_context (wrap ("failed to remove pre-terminate hook from control plane Machine" ∷ m ∷ []))
        (remove_pre_terminate_hook u k m)

  delete_unless_deleting : String → M (List Error)
  unfolding delete_one
  delete_unless_deleting m = do
    o ← gets (λ w. w.machines m)
    if o.deleting then pure [] else errors_of (delete_one m)

  -- By the errors of the loop, which are returned together with the result.
  with_errors : List Error → M CtrlResult
  with_errors es w = (result_or (u.new_aggregate es), w)
    where
      result_or : Option Error → Result Error CtrlResult
      result_or none = ok wait_a_little
      result_or (some e) = err e

  -- With the machines of the cluster in the table: all, and those of the control plane.
  delete_machines : List String → List String → M CtrlResult
  unfolding delete_unless_deleting with_errors
  delete_machines all [] = do modify remove_finalizer; pure zero_result
  delete_machines all (m ∷ ms) =
      if not (nat_eq (length all) (length (m ∷ ms)))
      then pure wait_a_little
      else (do es ← gather delete_unless_deleting (m ∷ ms); with_errors es)

  delete_listed : Result ApiError (List Machine) → M CtrlResult
  unfolding delete_machines
  delete_listed (err a) = fail (wrap ("failed to get machines" ∷ []) (api a))
  delete_listed (ok os) = do
    modify (λ w. record w { machines = table_of os w.machines })
    w ← gets (λ w. w)
    let names = map (λ o. o.name) os
    delete_machines names
        (u.filter (λ m. u.control_plane_machine w.scope.cluster.name (w.machines m)) names)

  unfoldable pub reconcile_delete : M CtrlResult
  unfolding delete_listed
  reconcile_delete = do r ← gets (λ w. k.list_machines w.calls); delete_listed r
