-- ===== src/ControlPlane/Remediation/Safety.antt =====
-- Remediation deletes at most one machine in a reconciliation, and none where that could cost the
-- cluster its availability.
use k0smotron.Prelude.{
  ◌+◌, ◌≤◌, String, List, [], ◌∷◌, true, false, Option, none, some, ◌≡◌, refl, ◌⊎◌, inl, inr,
  length, arith, has_key, count-append, ◌∙◌, ap, ltb, not,
}
use mathlib.Core.Path.{subst}
use k0smotron.Kube.{
  Upstream, RuntimeLaws, Api, ApiError, Error, api, plain, wrap, fault, Result, ok, err, Machine,
  patch_machine_status,
}
use k0smotron.ControlPlane.Scope.{Scope, World}
use k0smotron.ControlPlane.Action.{M, raise_option, continue, caught, ◌>>=◌, attempt, outcome_of}
use k0smotron.ControlPlane.Action.Frame.{Frame, frame_rules}
use k0smotron.ControlPlane.Action.Rules.{when_post, bind_post, raise_option-world}
use k0smotron.ControlPlane.Machines.{initialized, delete_machine_object}
use k0smotron.ControlPlane.Machines.Effects.{
  deletes-delete_machine_object, is_delete, deletes, deletes-Blind, scope-Blind, Blind, Frame-quiet,
  Frame-object,
}
use k0smotron.ControlPlane.Remediation.{
  waiting_for_remediation, remediation_in_progress, patch_sanitized, sanitize_machine,
  sanitize_healthy_machines, set_remediated, after_deletion, delete_unhealthy, blocked,
  delete_unless_blocked, patch_outcome, patch_remediated, delete_or_wait, remediate_machine,
  remediate_oldest, reconcile_unhealthy_machines, healthy_machines, unhealthy_machines,
}

module _ {B : Type 0} {g : World → B} (b : Blind g) (u : Upstream) (k : Api) where
  patch_sanitized-Frame : (m : String) (o : Machine) → Frame g (patch_sanitized u k m o)
  unfolding patch_sanitized
  patch_sanitized-Frame m o = search (frame_rules, Frame-quiet b, Frame-object b)

  sanitize_machine-Frame : (m : String) → Frame g (sanitize_machine u k m)
  unfolding sanitize_machine
  sanitize_machine-Frame m = search (frame_rules, patch_sanitized-Frame)

  pub sanitize_healthy_machines-Frame :
      (ms : List String) → Frame g (sanitize_healthy_machines u k ms)
  unfolding sanitize_healthy_machines
  sanitize_healthy_machines-Frame ms = search (frame_rules, sanitize_machine-Frame)

  pub set_remediated-Frame :
      (m reason message : String) → Frame g (set_remediated u k m reason message)
  unfolding set_remediated
  set_remediated-Frame m reason message = search (frame_rules, Frame-object b)

-- Once the control plane was initialized, another active machine stays, and none is on its way out.
abbrev pub CanLose : Scope → Type 0
CanLose s =
    initialized s.kcp ≡ true → (2 ≤ length s.active_machines) × (length s.deleted_machines ≡ 0)

abbrev pub MayDelete : Scope → Type 0
MayDelete s = (has_key remediation_in_progress s.kcp.annotations ≡ false) × CanLose s

-- No deletion, or one that the struct allows.
abbrev Careful : World → World → Type 0
Careful w w' = (deletes w' ≡ deletes w) ⊎ ((deletes w' ≡ deletes w + 1) × CanLose w.scope)

abbrev CarefulAndIdle : World → World → Type 0
CarefulAndIdle w w' = (deletes w' ≡ deletes w) ⊎ ((deletes w' ≡ deletes w + 1) × MayDelete w.scope)

CarefulAndIdle-of_Careful :
    (w w1 w' : World)
    → deletes w1 ≡ deletes w
    → w1.scope ≡ w.scope
    → not (has_key remediation_in_progress w1.scope.kcp.annotations) ≡ true
    → Careful w1 w'
    → CarefulAndIdle w w'
CarefulAndIdle-of_Careful w w1 w' d s idle c = elim c [
  | inl e ↦ inl (e ∙ d)
  | inr (e, l) ↦ inr (e ∙ ap (λ n. n + 1) d, subst MayDelete s (ground arith, l))
]

module _ (u : Upstream) (k : Api) where
  deletes-after_deletion :
      (m : String) (r : Result Error Unit) (w : World)
      → deletes (after_deletion u k m r w).1 ≡ deletes w
  unfolding after_deletion ◌>>=◌
  deletes-after_deletion m (ok _) w = refl
  deletes-after_deletion m (err e) w =
      ground (
        arith,
        (set_remediated-Frame deletes-Blind u k m "RemediationFailed" (u.error_text e)).at w,
      )

  deletes-answered :
      (m : String) (r : Result Error Unit) (w : World)
      → deletes (continue (caught r) (after_deletion u k m) w).1 ≡ deletes w
  deletes-answered m (ok x) w = deletes-after_deletion m (ok x) w
  deletes-answered m (err fault) w = refl
  deletes-answered m (err (api a)) w = deletes-after_deletion m (err (api a)) w
  deletes-answered m (err (plain t)) w = deletes-after_deletion m (err (plain t)) w
  deletes-answered m (err (wrap t e)) w = deletes-after_deletion m (err (wrap t e)) w

  deletes-delete_unhealthy :
      (m : String) (w : World) → deletes (delete_unhealthy u k m w).1 ≡ deletes w + 1
  unfolding delete_unhealthy ◌>>=◌ attempt
  deletes-delete_unhealthy m w =
      let (r, w') = delete_machine_object u k m w in
      deletes-answered m r w' ∙ deletes-delete_machine_object u k m w

  CanLose-of_unblocked :
      (w : World) (healthy : List String) → blocked u k w healthy ≡ none → CanLose w.scope
  unfolding blocked
  CanLose-of_unblocked w healthy h = ground arith

  delete_unless_blocked_lem :
      (m : String) (o : Option String) (w : World)
      → (o ≡ none → CanLose w.scope)
      → Careful w (delete_unless_blocked u k m o w).1
  unfolding delete_unless_blocked
  delete_unless_blocked_lem m none w h = inr (deletes-delete_unhealthy m w, h refl)
  delete_unless_blocked_lem m (some t) w h =
      inl ((set_remediated-Frame deletes-Blind u k m waiting_for_remediation t).at w)

  delete_or_wait_lem :
      (m : String) (healthy : List String) (w : World)
      → Careful w (delete_or_wait u k m healthy w).1
  unfolding delete_or_wait ◌>>=◌
  delete_or_wait_lem m healthy w =
      delete_unless_blocked_lem m (blocked u k w healthy) w (CanLose-of_unblocked w healthy)

  deletes-patch_remediated :
      (m : String) (body : M Unit) (w : World)
      → deletes (patch_remediated u k m body w).1 ≡ deletes (body w).1
  unfolding patch_remediated ◌>>=◌ outcome_of
  deletes-patch_remediated m body w =
      let o = (body w).1.machines m in
      rw (raise_option-world _ _)
        (omega (arith, count-append is_delete (body w).1.calls (patch_machine_status o ∷ [])))

  remediate_machine_lem :
      (healthy : List String) (o : Option String) (w : World)
      → Careful w (remediate_machine u k healthy o w).1
  unfolding remediate_machine ◌>>=◌
  remediate_machine_lem healthy none w = inl refl
  remediate_machine_lem healthy (some m) w =
      when_post (Careful w) (not (w.machines m).deleting) _ w
        (λ _.
          rw (deletes-patch_remediated m (delete_or_wait u k m healthy) w)
            (delete_or_wait_lem m healthy w))
        (λ _. inl refl)

  remediate_oldest_lem :
      (healthy : List String) (w : World) → Careful w (remediate_oldest u k healthy w).1
  unfolding remediate_oldest ◌>>=◌
  remediate_oldest_lem healthy w =
      when_post (Careful w) (ltb 0 (length (unhealthy_machines u w))) _ w
        (λ _. remediate_machine_lem healthy (u.oldest w.machines (unhealthy_machines u w)) w)
        (λ _. inl refl)

  sanitized_lem :
      (healthy : List String) (w : World)
      → let w' = (sanitize_healthy_machines u k healthy w).1 in
        (deletes w' ≡ deletes w) × (w'.scope ≡ w.scope)
  sanitized_lem healthy w = (
    (sanitize_healthy_machines-Frame deletes-Blind u k healthy).at w,
    (sanitize_healthy_machines-Frame scope-Blind u k healthy).at w,
  )

  -- Reconciling the unhealthy machines deletes no machine, or exactly one. It deletes one only if no
  -- remediation is in progress, and, once the control plane was initialized, only if there is
  -- another active machine and no machine is being deleted.
  pub remediation_safe :
      (w : World)
      → let w' = (reconcile_unhealthy_machines u k w).1 in
        (deletes w' ≡ deletes w) ⊎ ((deletes w' ≡ deletes w + 1) × MayDelete w.scope)
  unfolding reconcile_unhealthy_machines ◌>>=◌
  remediation_safe w =
      let hs = healthy_machines u w in
      let w1 = (sanitize_healthy_machines u k hs w).1 in
      let s = sanitized_lem hs w in
      bind_post (CarefulAndIdle w) (sanitize_healthy_machines u k hs) _ w
        (λ _ _.
          when_post (CarefulAndIdle w)
            (not (has_key remediation_in_progress w1.scope.kcp.annotations)) _ w1
            (λ idle.
              CarefulAndIdle-of_Careful w w1 (remediate_oldest u k hs w1).1 s.0 s.1 idle
                (remediate_oldest_lem hs w1))
            (λ _. inl s.0))
        (λ _ _. inl s.0)

  module _ (laws : RuntimeLaws u) where
    raise-patch_outcome :
        (m : String) (e : Option ApiError) (r : Result Error Unit) (w : World)
        → (raise_option (patch_outcome u k m e r) w).0 ≡ r
    unfolding patch_outcome ◌>>=◌
    raise-patch_outcome m none (ok tt) w = refl
    raise-patch_outcome m (some d) (ok tt) w = rw laws.wrapf_nil
    raise-patch_outcome m e (err r) w = refl

    -- The deferred status patch of the remediated machine never changes what is returned: its own
    -- failure is lost, whatever the servers answer.
    pub patch_failure_is_lost :
        (m : String) (body : M Unit) (w : World) → (patch_remediated u k m body w).0 ≡ (body w).0
    unfolding patch_remediated ◌>>=◌ outcome_of
    patch_failure_is_lost m body w = raise-patch_outcome m _ (body w).0 _
