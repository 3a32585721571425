-- ===== src/ControlPlane/Replace.antt =====
-- One machine more and one machine less: scaleUp, scaleDown and nextFailureDomain in
-- internal/controller/controlplane/scale.go.
pub mod Requests
pub mod Choice
pub mod Creates
use Prim.Native.String.{◌++◌ as push_str}
use k0smotron.Prelude.{
  String, List, [], ◌∷◌, ◌++◌, Bool, true, false, Option, none, some, keep, unwrap_or, remove,
}
use k0smotron.Kube.{
  Upstream, VersionLib, Api, Error, api, plain, wrap, Result, ok, err, map_err, FailureDomain,
  Cluster, InfraMachine, Machine, apply_machine,
}
use k0smotron.ControlPlane.Scope.{Scope, World}
use k0smotron.ControlPlane.Action.{
  M, pure, fail, gets, modify, send, ◌>>=◌, ◌>>◌, if_failed, with_context,
}
use k0smotron.ControlPlane.Machines.{delete_machine_object}
use k0smotron.ControlPlane.Remediation.{remediation_in_progress}
use k0smotron.ControlPlane.Template.{
  Codec, lift_result, create_machine_from_template, generate_machine, get_machine_k0s_config,
  create_bootstrap_config,
}

filter_control_plane_failure_domains : Cluster → List FailureDomain
filter_control_plane_failure_domains c =
    keep (λ d. unwrap_or d.control_plane false) c.failure_domains

-- delete(scope.kcp.Annotations, RemediationInProgressAnnotation)
abbrev pub remediation_done : World → World
remediation_done w =
    let s = w.scope in
    let kcp = s.kcp in
    record w {
      scope = record s {
        kcp = record kcp { annotations = remove remediation_in_progress kcp.annotations };
      };
    }

module _ (u : Upstream) where
  pub next_failure_domain : World → String
  unfolding filter_control_plane_failure_domains
  next_failure_domain w =
      u.pick_fewest (filter_control_plane_failure_domains w.scope.cluster) w.machines
        (w.scope.active_machines ++ w.scope.deleted_machines) w.scope.up_to_date_machines

  -- The machine to delete: the oldest one that is not up to date, or else the oldest.
  unfoldable pub machine_to_delete : World → Option String
  machine_to_delete w = elim (u.oldest w.machines w.scope.not_up_to_date_machines) [
    | some m ↦ some m
    | none ↦ u.oldest w.machines w.scope.up_to_date_machines
  ]

module _ (u : Upstream) (v : VersionLib) (c : Codec) (k : Api) where
  -- The Machine itself, once its configuration is there.
  patch_machine_object : Machine → M Unit
  patch_machine_object o = do
    e ← send k (apply_machine o)
    if_failed e (λ a. wrap ("error patching machine" ∷ []) (api a))
    modify remediation_done

  -- From the infrastructure machine on.
  scale_up_with : String → InfraMachine → M Unit
  unfolding patch_machine_object
  scale_up_with name infra = do
    w ← gets (λ w. w)
    o ← lift_result (wrap ("error generating machine" ∷ [])) (
        generate_machine u v c name w.scope.cluster w.scope.kcp
          (record {
            kind = infra.kind;
            name = infra.name;
            api_group = "infrastructure.cluster.x-k8s.io";
          })
          (next_failure_domain u w))
    config ←
        lift_result (wrap ("error getting machine k0s config" ∷ [])) (get_machine_k0s_config c o)
    with_context (wrap ("error creating bootstrap config" ∷ []))
        (create_bootstrap_config u k o.name config w.scope.kcp w.scope.cluster.name)
    patch_machine_object o

  pub scale_up : M Unit
  unfolding scale_up_with
  scale_up = do
    w ← gets (λ w. w)
    let name = k.generate_name w.calls (push_str w.scope.kcp.name "-")
    infra ←
        with_context (wrap ("error creating machine from template" ∷ []))
          (create_machine_from_template u k name w.scope.cluster w.scope.kcp)
    scale_up_with name infra

module _ (u : Upstream) (k : Api) where
  delete_chosen : Option String → M Unit
  delete_chosen none = fail (plain ("no machine found to delete" ∷ []))
  delete_chosen (some m) = delete_machine_object u k m

  pub scale_down : M Unit
  unfolding delete_chosen
  scale_down = do chosen ← gets (machine_to_delete u); delete_chosen chosen
