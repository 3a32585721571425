-- ===== src/ControlPlane/Machines.antt =====
-- The requests about a single control plane machine: helper.go and scale.go of
-- internal/controller/controlplane.
pub mod Effects
pub mod Server
use k0smotron.Prelude.{
  ℕ, zero, suc, ◌-◌, ltb, String, List, [], ◌∷◌, Bool, true, false, ◌&&◌, ◌==◌, Option, none, some,
  if◌then◌else◌, unwrap_or, has, without, has_key, remove, update,
}
use k0smotron.Kube.{
  Upstream, Api, ApiError, not_found, refused, Error, api, plain, wrap, fault, Result, ok, err,
  Condition, condition_true, condition_false, Machine, Json, Fields, no_fields, field, text, object,
  Kcp, delete_machine, patch_machine, leave_etcd_member, leave_control_node, delete_etcd_member,
  delete_control_node, minute,
}
use k0smotron.ControlPlane.Scope.{World, set_machine}
use k0smotron.ControlPlane.Action.{
  M, pure, fail, gets, modify, ◌>>=◌, ◌>>◌, attempt, with_context, send, gather, errors_of,
  raise_option, when, unless_not_found, if_failed, poll,
}

abbrev pub pre_terminate_hook : String
pre_terminate_hook = "pre-terminate.delete.hook.machine.cluster.x-k8s.io/kcp-cleanup"

abbrev pub up_to_date_condition : String
up_to_date_condition = "UpToDate"

-- m["k"] in a map[string]any
pub field_value : String → Fields → Option Json
field_value k no_fields = none
field_value k (field j v r) = if j == k then some v else field_value k r

-- v == "text", for a value of type any
pub is_text : Option Json → String → Bool
is_text (some (text s)) t = s == t
is_text _ t = false

-- ptr.Deref(kcp.Status.Initialization.ControlPlaneInitialized, false)
unfoldable pub initialized : Kcp → Bool
initialized kcp = unwrap_or kcp.status.initialized false

module _ (u : Upstream) (k : Api) where
  unfoldable pub delete_machine_object : String → M Unit
  delete_machine_object m = do
    e ← send k (delete_machine m)
    unless_not_found e (λ a. wrap ("error deleting machine" ∷ []) (api a))

  -- A plain member of the loop of setUpToDateMachineCondition.
  set_up_to_date_condition : String → M (List Error)
  set_up_to_date_condition m = do
    w ← gets (λ w. w)
    let o = w.machines m
    let fresh = if has m w.scope.up_to_date_machines then condition_true else condition_false
    let reason = if has m w.scope.up_to_date_machines then "UpToDate" else "NotUpToDate"
    let o' = record o {
      conditions = u.set_condition o.conditions (record {
        kind = up_to_date_condition;
        status = fresh;
        reason = reason;
        message = "";
        last_transition = 0;
      });
    }
    modify (set_machine m o')
    e ← send k (patch_machine o')
    errors_of (if_failed e api)

  unfoldable pub set_up_to_date_machine_condition : M Unit
  unfolding set_up_to_date_condition
  set_up_to_date_machine_condition = do
    active ← gets (λ w. w.scope.active_machines)
    es ← gather set_up_to_date_condition active
    raise_option (u.new_aggregate es)

  -- The branch for a member that has left.
  delete_left : String → M Bool
  delete_left m = do
    e ← send k (delete_etcd_member m)
    unless_not_found e (λ a. wrap ("error deleting etcd member" ∷ m ∷ []) (api a))
    pure true

  -- The loop over the conditions of an etcd member.
  check_conditions : String → List Json → M Bool
  check_conditions m [] = pure false
  check_conditions m (object c ∷ cs) =
      let rest = check_conditions m cs in
      if is_text (field_value "type" c) "Joined" && is_text (field_value "status" c) "False"
      then delete_left m
      else rest
  check_conditions m (_ ∷ cs) = fail fault

  left_by_conditions : String → Result Error (Option (List Json)) → M Bool
  left_by_conditions m (err e) = fail (wrap ("error getting etcd member conditions" ∷ []) e)
  left_by_conditions m (ok none) = pure false
  left_by_conditions m (ok (some cs)) = check_conditions m cs

  left_by_member : String → Result ApiError Json → M Bool
  left_by_member m (err not_found) = pure true
  left_by_member m (err (refused t)) =
      fail (wrap ("error getting etcd member" ∷ []) (api (refused t)))
  left_by_member m (ok member) =
      left_by_conditions m (u.nested_slice member ("status" ∷ "conditions" ∷ []))

  unfoldable pub check_machine_left : String → Bool → M Bool
  unfolding check_conditions delete_left left_by_conditions left_by_member
  check_machine_left m false = fail fault
  check_machine_left m true = do r ← gets (λ w. k.get_etcd_member w.calls m); left_by_member m r

  -- The second attempt, when the etcd member cannot be marked.
  or_mark_control_node : String → Option ApiError → M Unit
  or_mark_control_node m none = pure tt
  or_mark_control_node m (some _) = do
    e ← send k (leave_control_node m)
    unless_not_found e (λ a. wrap ("error marking control node to leave" ∷ []) (api a))

  unfoldable pub mark_child_control_node_to_leave : String → Bool → M Unit
  unfolding or_mark_control_node
  mark_child_control_node_to_leave m false = pure tt
  mark_child_control_node_to_leave m true = do
    e ← send k (leave_etcd_member m)
    or_mark_control_node m e

  unfoldable pub delete_control_node_object : String → Bool → M Unit
  delete_control_node_object m false = pure tt
  delete_control_node_object m true = do e ← send k (delete_control_node m); unless_not_found e api

  unfoldable pub remove_pre_terminate_hook : String → M Unit
  remove_pre_terminate_hook m = do
    o ← gets (λ w. w.machines m)
    when (has_key pre_terminate_hook o.annotations) do
      let o' = record o { annotations = remove pre_terminate_hook o.annotations }
      modify (set_machine m o')
      e ← send k (patch_machine o')
      if_failed e (λ a.
          wrap ("failed to remove pre-terminate hook from control plane Machine" ∷ []) (api a))

  -- What the poll of deleteK0sNodeResources runs.
  leave_once : String → Bool → M Bool
  unfolding mark_child_control_node_to_leave check_machine_left
  leave_once m c = do
    with_context (wrap ("error marking controlnode to leave" ∷ []))
        (mark_child_control_node_to_leave m c)
    check_machine_left m c

  leave_by_clientset : String → Result Error Bool → M Unit
  leave_by_clientset m (err e) =
      fail (wrap ("error getting cluster client set for deletion" ∷ []) e)
  leave_by_clientset m (ok c) = do
    with_context (wrap ("error checking machine left" ∷ [])) (poll k.poll_attempts (leave_once m c))
    with_context (wrap ("error deleting controlnode" ∷ [])) (delete_control_node_object m c)

  -- The part for a control plane that was reached.
  leave_cluster : String → M Unit
  unfolding leave_once leave_by_clientset delete_control_node_object poll
  leave_cluster m = do r ← gets (λ w. k.workload_clientset w.calls); leave_by_clientset m r

  unfoldable pub delete_k0s_node_resources : String → M Unit
  unfolding leave_cluster remove_pre_terminate_hook
  delete_k0s_node_resources m = do
    kcp ← gets (λ w. w.scope.kcp)
    when (initialized kcp) (leave_cluster m)
    with_context (wrap ("failed to remove pre-terminate hook from control plane Machine" ∷ m ∷ []))
        (remove_pre_terminate_hook m)

-- delete on each of the maps of the struct
unfoldable pub remove_machine_from_scope : String → World → World
remove_machine_from_scope m w =
    let s = w.scope in
    record w {
      scope = record s {
        active_machines = without m s.active_machines;
        up_to_date_machines = without m s.up_to_date_machines;
        not_up_to_date_machines = without m s.not_up_to_date_machines;
        infra_machines = update s.infra_machines m none;
        controller_configs = update s.controller_configs m none;
        deleted_machines = without m s.deleted_machines;
      };
    }
