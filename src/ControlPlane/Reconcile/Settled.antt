-- ===== src/ControlPlane/Reconcile/Settled.antt =====
-- When the controller stops coming back.
use k0smotron.Prelude.{
  String, Bool, true, false, not, ◌≡◌, sym, ap, ◌∙◌, subst, false≢true, if◌then◌else◌, Bool-cases,
  inl, inr,
}
use k0smotron.Kube.{Upstream, RuntimeLaws, VersionLib, Api, CtrlResult, zero_result}
use k0smotron.ControlPlane.Scope.{Scope, World}
use k0smotron.ControlPlane.Action.Returns.{
  OnOk, Returns, Returns-pure, Returns-bind, Returns-if, Returns-gets-pure, Returns-deferring,
}
use k0smotron.ControlPlane.Scaling.{
  is_needed_scale_up, is_needed_scale_down, is_desired_state_reached,
}
use k0smotron.ControlPlane.Machines.Effects.{scope-Blind, set_up_to_date_machine_condition-Frame}
use k0smotron.ControlPlane.Template.{Codec}
use k0smotron.ControlPlane.Readiness.{requeue_soon}
use k0smotron.ControlPlane.Reconcile.{
  until_desired, after_scaling, scale, after_inplace, after_preflight, reconcile_machines,
}

-- A result that does not ask to be run again is returned in the desired state only.
abbrev pub IsSettled : CtrlResult → World → Type 0
IsSettled r w = r ≡ zero_result → is_desired_state_reached w.scope ≡ true

until_desired-IsSettled :
    (s : Scope)
    → (if not (is_desired_state_reached s) then requeue_soon else zero_result) ≡ zero_result
    → is_desired_state_reached s ≡ true
until_desired-IsSettled s h = elim (Bool-cases (is_desired_state_reached s)) [
  | inl e ↦ e
  | inr e ↦ absurd (false≢true (sym (ap (λ r. r.requeue) (early s e h))))
]
  where
    early :
        (s : Scope)
        → is_desired_state_reached s ≡ false
        → (if not (is_desired_state_reached s) then requeue_soon else zero_result) ≡ zero_result
        → requeue_soon ≡ zero_result
    early s e h = subst (λ b. (if not b then requeue_soon else zero_result) ≡ zero_result) e h

module _ (u : Upstream) (l : RuntimeLaws u) (v : VersionLib) (c : Codec) (k : Api) (gate : Bool)
    (hook : String) where
  until_desired-Returns : Returns IsSettled (until_desired u v c k gate hook)
  unfolding until_desired
  until_desired-Returns = Returns-gets-pure _ _ (λ w. until_desired-IsSettled w.scope)

  scale-Returns : (s : Scope) → Returns IsSettled (scale u v c k gate hook s)
  unfolding scale after_scaling
  scale-Returns s =
      Returns-if (is_needed_scale_up s)
        (λ _. Returns-bind _ λ _. Returns-bind _ λ _. until_desired-Returns)
        (λ _.
          Returns-if (is_needed_scale_down s)
            (λ _. Returns-bind _ λ _. Returns-bind _ λ _. until_desired-Returns)
            (λ _. until_desired-Returns))

  -- The caller looks at the result first.
  stopped-IsSettled : (r : CtrlResult) → not (u.is_zero r) ≡ true → (w : World) → IsSettled r w
  stopped-IsSettled r h w zero = absurd (false≢true (ap not (sym ((l.is_zero_iff r).1 zero)) ∙ h))

  after_inplace-Returns : (r : CtrlResult) → Returns IsSettled (after_inplace u v c k gate hook r)
  unfolding after_inplace
  after_inplace-Returns r =
      Returns-if (not (u.is_zero r)) (λ h. Returns-pure r (stopped-IsSettled r h))
        (λ _. Returns-bind _ λ s. scale-Returns s)

  after_preflight-Returns :
      (r : CtrlResult) → Returns IsSettled (after_preflight u v c k gate hook r)
  unfolding after_preflight
  after_preflight-Returns r =
      Returns-if (not (u.is_zero r)) (λ h. Returns-pure r (stopped-IsSettled r h))
        (λ _. Returns-bind _ λ r'. after_inplace-Returns r')

  -- When the reconciliation of the machines returns a result that does not ask to be run again, the
  -- struct is in the desired state: as many up to date machines as replicas, none that is not up to
  -- date, and none that is being deleted.
  pub stops_when_desired :
      (w : World) → let (r, w') = reconcile_machines u v c k gate hook w in OnOk IsSettled r w'
  unfolding reconcile_machines
  stops_when_desired w =
      (Returns-deferring _ _
          (λ r w' settled zero.
            ap is_desired_state_reached
              ((set_up_to_date_machine_condition-Frame scope-Blind u k).at w')
            ∙ settled zero)
          (Returns-bind _ λ r. after_preflight-Returns r)).at
        w
