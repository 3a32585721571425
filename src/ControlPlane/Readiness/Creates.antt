-- ===== src/ControlPlane/Readiness/Creates.antt =====
-- The preflight checks create no Machine.
use k0smotron.Prelude.{ℕ, String, Bool, true, false, Option, none, some, not}
use k0smotron.Kube.{
  Upstream, Api, ApiError, not_found, refused, Error, Result, ok, err, ControllerConfig,
}
use k0smotron.Bootstrap.Args.{worker_enabled}
use k0smotron.ControlPlane.Action.Frame.{
  Frame, Frame-if, Frame-gets, Frame-bind, Frame-with_context, frame_rules,
}
use k0smotron.ControlPlane.Machines.Effects.{creates}
use k0smotron.ControlPlane.Remediation.Creates.{unhealthy-Frame}
use k0smotron.ControlPlane.Deletions.Creates.{manual_deletions-Frame}
use k0smotron.ControlPlane.Readiness.{
  ready_by_control_node, ready_by_clientset, check_machine_is_ready, ready_by_checking,
  ready_by_config, ready_if_any, is_latest_machine_ready, when_ready, preflight_checks,
}

module _ (u : Upstream) (k : Api) where
  control_node-Frame :
      (r : Result ApiError ℕ) (now : ℕ) → Frame creates (ready_by_control_node u k r now)
  unfolding ready_by_control_node
  control_node-Frame (err not_found) now = search frame_rules
  control_node-Frame (err (refused t)) now = search frame_rules
  control_node-Frame (ok joined) now = search frame_rules

  clientset-Frame :
      (m : String) (r : Result Error Bool) → Frame creates (ready_by_clientset u k m r)
  unfolding ready_by_clientset
  clientset-Frame m (err e) = search frame_rules
  clientset-Frame m (ok false) = search frame_rules
  clientset-Frame m (ok true) = search (frame_rules, control_node-Frame)

  check-Frame : (m : String) → Frame creates (check_machine_is_ready u k m)
  unfolding check_machine_is_ready
  check-Frame m = search (frame_rules, clientset-Frame)

  checking-Frame : (m : String) → Frame creates (ready_by_checking u k m)
  unfolding ready_by_checking
  checking-Frame m = search (frame_rules, check-Frame)

  config-Frame :
      (m : String) (c : Option ControllerConfig) → Frame creates (ready_by_config u k m c)
  unfolding ready_by_config
  config-Frame m none = checking-Frame m
  config-Frame m (some c) = Frame-if (not (worker_enabled c.spec)) (checking-Frame m) (Frame-gets _)

  if_any-Frame : (o : Option String) → Frame creates (ready_if_any u k o)
  unfolding ready_if_any
  if_any-Frame none = search frame_rules
  if_any-Frame (some m) = search (frame_rules, config-Frame)

  latest-Frame : Frame creates (is_latest_machine_ready u k)
  unfolding is_latest_machine_ready
  latest-Frame = search (frame_rules, if_any-Frame)

  when_ready-Frame : (b : Bool) → Frame creates (when_ready u k b)
  unfolding when_ready
  when_ready-Frame b = search frame_rules

  pub preflight-Frame : Frame creates (preflight_checks u k)
  unfolding preflight_checks
  preflight-Frame = Frame-bind (unhealthy-Frame u k) λ _.
      Frame-bind (Frame-with_context _ (manual_deletions-Frame u k))
        λ _. Frame-bind latest-Frame when_ready-Frame
