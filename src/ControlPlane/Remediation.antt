-- ===== src/ControlPlane/Remediation.antt =====
-- internal/controller/controlplane/remediation.go: the machines that a health check found
-- unhealthy are replaced, one at a time.
pub mod Safety
pub mod Creates
use k0smotron.Prelude.{
  ℕ, String, List, [], ◌∷◌, Bool, true, false, not, ◌&&◌, ◌==◌, Option, none, some, if◌then◌else◌,
  length, leb, ltb, has_key, insert,
}
use k0smotron.Kube.{
  Upstream, Api, ApiError, Error, api, wrap, fault, Result, ok, err, Condition, condition_false,
  Machine, Kcp, patch_machine_status,
}
use k0smotron.ControlPlane.Scope.{Scope, World, set_machine}
use k0smotron.ControlPlane.Action.{
  M, pure, fail, gets, modify, when, raise_option, send, ◌>>=◌, ◌>>◌, attempt, outcome_of,
  errors_of, gather, if_failed,
}
use k0smotron.ControlPlane.Machines.{initialized, delete_machine_object}

abbrev pub remediation_in_progress : String
remediation_in_progress = "controlplane.cluster.x-k8s.io/remediation-in-progress"

abbrev pub health_check_succeeded : String
health_check_succeeded = "HealthCheckSucceeded"

abbrev pub owner_remediated : String
owner_remediated = "OwnerRemediated"

abbrev waiting_for_remediation : String
waiting_for_remediation = "WaitingForRemediation"

has_node : Machine → Bool
has_node o = not (o.node_ref_name == "")

-- annotations.AddAnnotations(kcp, ...)
abbrev pub mark_in_progress : World → World
mark_in_progress w =
    let s = w.scope in
    let kcp = s.kcp in
    record w {
      scope = record s {
        kcp = record kcp { annotations = insert remediation_in_progress "true" kcp.annotations };
      };
    }

module _ (u : Upstream) where
  is_healthy : Machine → Bool
  is_healthy o = u.is_true o.conditions health_check_succeeded

  unfoldable pub healthy_machines : World → List String
  unfolding is_healthy
  healthy_machines w = u.filter (λ m. is_healthy (w.machines m)) w.scope.active_machines

  unfoldable pub unhealthy_machines : World → List String
  unhealthy_machines w =
      u.filter (λ m. u.unhealthy_and_owner_remediated (w.machines m)) w.scope.active_machines

  unfoldable pub is_provisioning_healthy_machine : World → List String → Bool
  unfolding has_node
  is_provisioning_healthy_machine w healthy =
      ltb 0 (length (u.filter (λ m. not (has_node (w.machines m))) healthy))

  module _ (k : Api) where
    patch_sanitized : String → Machine → M Unit
    patch_sanitized m o = do
      modify (set_machine m o)
      e ← send k (patch_machine_status o)
      if_failed e (λ a.
          wrap
            ("failed to patch control plane Machine to clean machine's unhelthy condition" ∷ m ∷ [])
            (api a))

    sanitize_machine : String → M (List Error)
    unfolding patch_sanitized
    sanitize_machine m = do
      o ← gets (λ w. w.machines m)
      let cleaned = u.delete_condition o.conditions owner_remediated
      errors_of (
          when (u.is_false o.conditions owner_remediated && not o.deleting)
            (patch_sanitized m (record o { conditions = cleaned })))

    pub sanitize_healthy_machines : List String → M Unit
    unfolding sanitize_machine
    sanitize_healthy_machines healthy = do
      es ← gather sanitize_machine healthy
      raise_option (u.new_aggregate es)

    -- conditions.Set on the machine to be remediated
    pub set_remediated : String → String → String → M Unit
    set_remediated m reason message = do
      o ← gets (λ w. w.machines m)
      modify (
          set_machine m (record o {
            conditions = u.set_condition o.conditions (record {
              kind = owner_remediated;
              status = condition_false;
              reason = reason;
              message = message;
              last_transition = 0;
            });
          }))

    -- The end of the remediation, by the answer to the deletion.
    after_deletion : String → Result Error Unit → M Unit
    after_deletion m (ok _) = modify mark_in_progress
    after_deletion m (err e) = do
      set_remediated m "RemediationFailed" (u.error_text e)
      fail (wrap ("failed to delete unhealthy machine" ∷ m ∷ []) e)

    delete_unhealthy : String → M Unit
    unfolding after_deletion
    delete_unhealthy m = do r ← attempt (delete_machine_object u k m); after_deletion m r

    -- The reason to wait, if there is one.
    unfoldable pub blocked : World → List String → Option String
    blocked w healthy =
        if not (initialized w.scope.kcp)
        then none
        else if leb (length w.scope.active_machines) 1
        then some "KCP can't remediate if current replicas are less or equal to 1"
        else if is_provisioning_healthy_machine w healthy
        then some
            "KCP waiting for control plane machine provisioning to complete before triggering remediation"
        else if ltb 0 (length w.scope.deleted_machines)
        then some
            "KCP waiting for control plane machine deletion to complete before triggering remediation"
        else none

    delete_unless_blocked : String → Option String → M Unit
    unfolding delete_unhealthy set_remediated
    delete_unless_blocked m none = delete_unhealthy m
    delete_unless_blocked m (some message) = set_remediated m waiting_for_remediation message

    -- What is returned after the deferred patch. The `err` that it wraps is the one of
    -- sanitizeHealthyMachines, and nil by then.
    unfoldable pub patch_outcome : String → Option ApiError → Result Error Unit → Option Error
    patch_outcome m e (err r) = some r
    patch_outcome m none (ok _) = none
    patch_outcome m (some d) (ok _) =
        u.wrapf none ("failed to patch control plane Machine" ∷ m ∷ [])

    pub patch_remediated : String → M Unit → M Unit
    unfolding patch_outcome
    patch_remediated m body = do
      r ← outcome_of body
      o ← gets (λ w. w.machines m)
      e ← send k (patch_machine_status o)
      raise_option (patch_outcome m e r)

    delete_or_wait : String → List String → M Unit
    unfolding blocked delete_unless_blocked
    delete_or_wait m healthy = do w ← gets (λ w. w); delete_unless_blocked m (blocked w healthy)

    remediate_machine : List String → Option String → M Unit
    unfolding patch_remediated delete_or_wait
    remediate_machine healthy none = fail fault
    remediate_machine healthy (some m) = do
      o ← gets (λ w. w.machines m)
      when (not o.deleting) (patch_remediated m (delete_or_wait m healthy))

    remediate_oldest : List String → M Unit
    unfolding remediate_machine unhealthy_machines
    remediate_oldest healthy = do
      w ← gets (λ w. w)
      let unhealthy = unhealthy_machines w
      when (ltb 0 (length unhealthy)) (remediate_machine healthy (u.oldest w.machines unhealthy))

    unfoldable pub reconcile_unhealthy_machines : M Unit
    unfolding healthy_machines sanitize_healthy_machines remediate_oldest
    reconcile_unhealthy_machines = do
      healthy ← gets healthy_machines
      sanitize_healthy_machines healthy
      kcp ← gets (λ w. w.scope.kcp)
      when (not (has_key remediation_in_progress kcp.annotations)) (remediate_oldest healthy)
