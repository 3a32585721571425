-- ===== src/ControlPlane/Template/Effects.antt =====
-- The requests about infrastructure machines and configurations are not about Machine objects.
use k0smotron.Prelude.{String, Option, none, some, refl}
use k0smotron.Kube.{
  Upstream, Api, ApiError, not_found, refused, Error, Result, ok, err, Json, Fields, Kcp, Cluster,
  InfraMachine, K0sConfigSpec,
}
use k0smotron.ControlPlane.Scope.{World}
use k0smotron.ControlPlane.Action.Frame.{Frame, frame_rules}
use k0smotron.ControlPlane.Machines.Effects.{Blind, Frame-quiet}
use k0smotron.ControlPlane.Template.{
  lift_result, create_machine_from_template, generate_machine_from_template, machine_of_template,
  create_or_merge, create_bootstrap_config,
}

module _ {B : Type 0} {g : World → B} (b : Blind g) where
  pub lift_result-Frame :
      {A : Type 0} (f : Error → Error) (r : Result Error A) → Frame g (lift_result f r)
  unfolding lift_result
  lift_result-Frame f r = record { at = λ w. refl }

  module _ (u : Upstream) (k : Api) where
    machine_of_template-Frame :
        (name : String) (cluster : Cluster) (kcp : Kcp) (t : Json)
        (r : Result Error (Option Fields))
        → Frame g (machine_of_template u k name cluster kcp t r)
    unfolding machine_of_template
    machine_of_template-Frame name cluster kcp t (ok (some c)) = search frame_rules
    machine_of_template-Frame name cluster kcp t (ok none) = search frame_rules
    machine_of_template-Frame name cluster kcp t (err e) = search frame_rules

    generate-Frame :
        (name : String) (cluster : Cluster) (kcp : Kcp)
        → Frame g (generate_machine_from_template u k name cluster kcp)
    unfolding generate_machine_from_template
    generate-Frame name cluster kcp =
        search (frame_rules, Frame-quiet b, lift_result-Frame, machine_of_template-Frame, tt)

    create_or_merge-Frame :
        (infra : InfraMachine) (r : Result ApiError InfraMachine)
        → Frame g (create_or_merge u k infra r)
    unfolding create_or_merge
    create_or_merge-Frame infra (err not_found) = search (frame_rules, Frame-quiet b, tt)
    create_or_merge-Frame infra (err (refused t)) = search frame_rules
    create_or_merge-Frame infra (ok e) = search (frame_rules, Frame-quiet b, lift_result-Frame, tt)

    pub create_machine_from_template-Frame :
        (name : String) (cluster : Cluster) (kcp : Kcp)
        → Frame g (create_machine_from_template u k name cluster kcp)
    unfolding create_machine_from_template
    create_machine_from_template-Frame name cluster kcp =
        search (frame_rules, generate-Frame, create_or_merge-Frame)

    pub create_bootstrap_config-Frame :
        (name : String) (spec : K0sConfigSpec) (kcp : Kcp) (cluster_name : String)
        → Frame g (create_bootstrap_config u k name spec kcp cluster_name)
    unfolding create_bootstrap_config
    create_bootstrap_config-Frame name spec kcp cluster_name =
        search (frame_rules, Frame-quiet b, tt)
