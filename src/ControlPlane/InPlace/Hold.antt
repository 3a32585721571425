-- ===== src/ControlPlane/InPlace/Hold.antt =====
-- While an update in place is due, nothing else is done to the machines.
use k0smotron.Prelude.{
  String, false≢true, Bool, true, false, not, ◌&&◌, ◌||◌, ◌≡◌, ◌≢◌, refl, ap, sym, if◌then◌else◌,
  arith,
}
use k0smotron.Kube.{
  Upstream, VersionLib, Api, Error, Result, ok, err, Json, CtrlResult, zero_result, is_not_found,
}
use k0smotron.ControlPlane.Scope.{Scope, World}
use k0smotron.ControlPlane.Action.{◌>>=◌}
use k0smotron.ControlPlane.Action.Rules.{bind_outcome}
use k0smotron.ControlPlane.Action.Returns.{
  OnOk, Returns, Returns-pure, Returns-fail, Returns-bind, Returns-if,
}
use k0smotron.ControlPlane.Template.{Codec}
use k0smotron.ControlPlane.Readiness.{requeue_soon}
use k0smotron.ControlPlane.Trigger.{complete_interrupted_triggers}
use k0smotron.ControlPlane.Trigger.Effects.{Unconcerned, complete_interrupted_triggers-Frame}
use k0smotron.ControlPlane.InPlace.{
  available_condition, wait_a_little, requires_update, count_matches, start_update,
  after_completion, by_completion, by_plan, by_clientset, by_availability, by_interrupted,
  reconcile_inplace_k0s_version_update,
}

-- The caller stops at an error, and at a result that is not zero.
abbrev pub IsNotZero : CtrlResult → World → Type 0
IsNotZero r w = r ≢ zero_result

requeue_soon-IsNotZero : (w : World) → IsNotZero requeue_soon w
requeue_soon-IsNotZero w e = false≢true (sym (ap (λ r. r.requeue) e))

wait-IsNotZero : (w : World) → IsNotZero wait_a_little w
wait-IsNotZero w e = omega (arith, ap (λ r. r.requeue_after) e)

kcp-Unconcerned : Unconcerned (λ w. w.scope.kcp)
kcp-Unconcerned = record {
  blind = record { quiet = λ c q w. refl; objects = λ m o w. refl };
  infra = λ m i w. refl;
  config = λ m c w. refl;
}

active-Unconcerned : Unconcerned (λ w. w.scope.active_machines)
active-Unconcerned = record {
  blind = record { quiet = λ c q w. refl; objects = λ m o w. refl };
  infra = λ m i w. refl;
  config = λ m c w. refl;
}

module _ (u : Upstream) (v : VersionLib) (c : Codec) (k : Api) (gate : Bool) (hook : String) where
  start_update-Returns : (h : Bool) → Returns IsNotZero (start_update u v c k gate hook h)
  unfolding start_update
  start_update-Returns h = Returns-bind _ λ _. Returns-pure requeue_soon requeue_soon-IsNotZero

  by_completion-Returns :
      (h : Bool) (plan : Json) (r : Result Error Bool)
      → Returns IsNotZero (by_completion u v c k gate hook h true plan r)
  unfolding by_completion after_completion
  by_completion-Returns h plan (err e) = Returns-fail _
  by_completion-Returns h plan (ok false) = Returns-pure requeue_soon requeue_soon-IsNotZero
  by_completion-Returns h plan (ok true) =
      Returns-bind _
        λ _. Returns-bind _ λ _. Returns-bind _ λ _. Returns-bind _ λ _. start_update-Returns h

  by_plan-Returns :
      (h : Bool) (r : Result Error Json) → Returns IsNotZero (by_plan u v c k gate hook h true r)
  unfolding by_plan
  by_plan-Returns h (ok plan) = by_completion-Returns h plan _
  by_plan-Returns h (err e) =
      Returns-if (is_not_found e) (λ _. start_update-Returns h) (λ _. Returns-fail _)

  by_clientset-Returns :
      (r : Result Error Bool) → Returns IsNotZero (by_clientset u v c k gate hook true r)
  unfolding by_clientset
  by_clientset-Returns (err e) = Returns-fail _
  by_clientset-Returns (ok h) = Returns-bind _ λ plan. by_plan-Returns h plan

  held-IsNotZero :
      (s : Scope)
      → count_matches s ≡ true
      → (w : World) → IsNotZero (if true && count_matches s then wait_a_little else zero_result) w
  held-IsNotZero s h w = rw h (wait-IsNotZero w)

  by_availability-Returns :
      (s : Scope)
      → (u.is_true s.kcp.status.conditions available_condition || count_matches s) ≡ true
      → Returns IsNotZero (by_availability u v c k gate hook true s)
  unfolding by_availability
  by_availability-Returns s h =
      Returns-if (not (u.is_true s.kcp.status.conditions available_condition))
        (λ e. Returns-pure _ (held-IsNotZero s (ground (arith, e, h))))
        (λ _. Returns-bind _ λ r. by_clientset-Returns r)

  by_interrupted-OnOk :
      (i : Bool) (w : World)
      → (u.is_true w.scope.kcp.status.conditions available_condition || count_matches w.scope)
        ≡ true
      → OnOk IsNotZero
          (by_interrupted u v c k gate hook true i w).0
          (by_interrupted u v c k gate hook true i w).1
  unfolding by_interrupted ◌>>=◌
  by_interrupted-OnOk true w h = requeue_soon-IsNotZero w
  by_interrupted-OnOk false w h = (by_availability-Returns w.scope h).at w

  -- If an update in place is due, and the control plane is available or has as many active machines
  -- as replicas, the reconciliation of the update either fails, or returns a result that is not
  -- zero, at which the caller returns: no machine is replaced or scaled that is to be updated in
  -- place.
  pub inplace_holds :
      (w : World)
      → requires_update w.scope ≡ true
      → (u.is_true w.scope.kcp.status.conditions available_condition || count_matches w.scope)
        ≡ true
      → let (r, w') = reconcile_inplace_k0s_version_update u v c k gate hook w in
        OnOk IsNotZero r w'
  unfolding reconcile_inplace_k0s_version_update ◌>>=◌ count_matches
  inplace_holds w due h =
      let mid = complete_interrupted_triggers u k hook gate in
      let kcp = (complete_interrupted_triggers-Frame kcp-Unconcerned u k hook gate).at w in
      let active = (complete_interrupted_triggers-Frame active-Unconcerned u k hook gate).at w in
      rw due (
        bind_outcome (OnOk IsNotZero) mid _ w
          (λ i e. by_interrupted-OnOk i (mid w).1 (rw (kcp, active) h)) (λ e e'. tt))
