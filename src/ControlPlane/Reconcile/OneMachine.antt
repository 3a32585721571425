-- ===== src/ControlPlane/Reconcile/OneMachine.antt =====
-- How many Machines a reconciliation creates.
use k0smotron.Prelude.{◌+◌, ◌≤◌, String, Bool, true, false, not, ◌≡◌, refl, if◌then◌else◌, arith}
use k0smotron.Kube.{Upstream, VersionLib, Api, Error, Result, ok, err, CtrlResult}
use k0smotron.ControlPlane.Scope.{Scope, World}
use k0smotron.ControlPlane.Action.{M, continue, ◌>>=◌, with_context, deferring}
use k0smotron.ControlPlane.Action.Frame.{
  Frame, Frame-bind, Frame-gets, Frame-pure, Frame-with_context, frame_rules,
}
use k0smotron.ControlPlane.Scaling.{is_needed_scale_up, is_needed_scale_down}
use k0smotron.ControlPlane.Machines.Effects.{
  creates, creates-OfCalls, creates-Blind, set_up_to_date_machine_condition-Frame,
}
use k0smotron.ControlPlane.Template.{Codec}
use k0smotron.ControlPlane.Readiness.Creates.{preflight-Frame}
use k0smotron.ControlPlane.Replace.{scale_up}
use k0smotron.ControlPlane.Replace.Requests.{scale_up_requests}
use k0smotron.ControlPlane.Replace.Creates.{scale_down-Frame}
use k0smotron.ControlPlane.Retrieval.Effects.{retrieve-Frame}
use k0smotron.ControlPlane.InPlace.Effects.{inplace-Frame}
use k0smotron.ControlPlane.Reconcile.{
  until_desired, after_scaling, scale, after_inplace, after_preflight, reconcile_machines,
}

-- At most one Machine more is asked for.
record AddsOne {A : Type 0} (m : M A) : Type 0 where
  pub at : (w : World) → creates (m w).1 ≤ creates w + 1

Frame-AddsOne : {A : Type 0} {m : M A} → Frame creates m → AddsOne m
Frame-AddsOne h = record { at = λ w. omega (arith, h.at w) }

AddsOne-if :
    {A : Type 0} (b : Bool) {m n : M A} → AddsOne m → AddsOne n → AddsOne (if b then m else n)
AddsOne-if true h k = h
AddsOne-if false h k = k

continue_quiet :
    {A B : Type 0} (r : Result Error A) (f : A → M B) (w : World)
    → ((a : A) → AddsOne (f a))
    → creates (continue r f w).1 ≤ creates w + 1
continue_quiet (ok a) f w h = (h a).at w
continue_quiet (err e) f w h = omega arith

continue_loud :
    {A B : Type 0} (r : Result Error A) (f : A → M B) (w : World)
    → ((a : A) → Frame creates (f a))
    → creates (continue r f w).1 ≡ creates w
continue_loud (ok a) f w h = (h a).at w
continue_loud (err e) f w h = refl

-- It may come second, or first.
quiet_first :
    {A B : Type 0} {m : M A} {f : A → M B}
    → Frame creates m
    → ((a : A) → AddsOne (f a))
    → AddsOne (m >>= f)
unfolding ◌>>=◌
quiet_first {m = m} {f = f} q h = record {
  at = λ w. omega (arith, q.at w, continue_quiet (m w).0 f (m w).1 h);
}

loud_first :
    {A B : Type 0} {m : M A} {f : A → M B}
    → AddsOne m
    → ((a : A) → Frame creates (f a))
    → AddsOne (m >>= f)
unfolding ◌>>=◌
loud_first {m = m} {f = f} l h = record {
  at = λ w. omega (arith, l.at w, continue_loud (m w).0 f (m w).1 h);
}

AddsOne-with_context :
    {A : Type 0} (f : Error → Error) {m : M A} → AddsOne m → AddsOne (with_context f m)
unfolding with_context
AddsOne-with_context f h = record { at = h.at }

AddsOne-deferring :
    {A : Type 0} {d : M Unit} {m : M A} → Frame creates d → AddsOne m → AddsOne (deferring d m)
unfolding deferring
AddsOne-deferring {m = m} q h = record { at = λ w. omega (arith, q.at (m w).1, h.at w) }

module _ (u : Upstream) (v : VersionLib) (c : Codec) (k : Api) (gate : Bool) (hook : String) where
  until_desired-Frame : Frame creates (until_desired u v c k gate hook)
  unfolding until_desired
  until_desired-Frame = search frame_rules

  after_scaling-Frame : Frame creates (after_scaling u v c k gate hook)
  unfolding after_scaling
  after_scaling-Frame =
      Frame-bind (Frame-with_context _ (retrieve-Frame u v c k creates-OfCalls))
        λ _. until_desired-Frame

  scale_up-AddsOne : AddsOne (scale_up u v c k)
  scale_up-AddsOne = record { at = λ w. (scale_up_requests u v c k w).1 }

  scale-AddsOne : (s : Scope) → AddsOne (scale u v c k gate hook s)
  unfolding scale
  scale-AddsOne s =
      AddsOne-if (is_needed_scale_up s)
        (loud_first (AddsOne-with_context _ scale_up-AddsOne) (λ _. after_scaling-Frame))
        (AddsOne-if (is_needed_scale_down s)
          (Frame-AddsOne
            (Frame-bind (Frame-with_context _ (scale_down-Frame u k)) λ _. after_scaling-Frame))
          (Frame-AddsOne until_desired-Frame))

  after_inplace-AddsOne : (r : CtrlResult) → AddsOne (after_inplace u v c k gate hook r)
  unfolding after_inplace
  after_inplace-AddsOne r =
      AddsOne-if (not (u.is_zero r)) (Frame-AddsOne (Frame-pure r))
        (quiet_first (Frame-gets (λ w. w.scope)) scale-AddsOne)

  after_preflight-AddsOne : (r : CtrlResult) → AddsOne (after_preflight u v c k gate hook r)
  unfolding after_preflight
  after_preflight-AddsOne r =
      AddsOne-if (not (u.is_zero r)) (Frame-AddsOne (Frame-pure r))
        (quiet_first (inplace-Frame creates-OfCalls u v c k gate hook) after_inplace-AddsOne)

  -- One reconciliation of the machines asks for at most one Machine more, whatever happens on the
  -- way.
  pub at_most_one_created :
      (w : World) → creates (reconcile_machines u v c k gate hook w).1 ≤ creates w + 1
  unfolding reconcile_machines
  at_most_one_created w =
      (AddsOne-deferring (set_up_to_date_machine_condition-Frame creates-Blind u k)
          (quiet_first (preflight-Frame u k) after_preflight-AddsOne)).at
        w
