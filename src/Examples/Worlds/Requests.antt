-- ===== src/Examples/Worlds/Requests.antt =====
-- What the reconciliation of a control plane asks for.
use k0smotron.Prelude.{◌+◌, ◌≤◌, String, [], ◌∷◌, ◌++◌, some, ◌≡◌, ◌≢◌, ◌⊎◌, refl, count, lookup}
use k0smotron.Kube.{
  ok, err, Error, fault, plain, ObjectRef, Machine, update_recreate, delete_machine,
}
use k0smotron.ControlPlane.Scope.{World}
use k0smotron.ControlPlane.Action.{fail}
use k0smotron.ControlPlane.Machines.Effects.{deletes, creates}
use k0smotron.ControlPlane.Scaling.{is_needed_scale_down}
use k0smotron.ControlPlane.Remediation.{reconcile_unhealthy_machines, patch_remediated}
use k0smotron.ControlPlane.Remediation.Safety.{MayDelete, remediation_safe, patch_failure_is_lost}
use k0smotron.ControlPlane.Template.{
  Codec, cluster_name_label, control_plane_label, control_plane_name_label,
  control_plane_common_labels, generate_k0s_config_annotation_value, generate_machine,
}
use k0smotron.ControlPlane.Template.Labels.{
  IsReadyToCreate, forced_labels, generate_machine-IsReadyToCreate,
}
use k0smotron.ControlPlane.Deletions.{reconcile_manual_deletions}
use k0smotron.ControlPlane.Deletions.Gone.{is_gone, manual_deletions_count}
use k0smotron.ControlPlane.Replace.{scale_up, scale_down}
use k0smotron.ControlPlane.Replace.Choice.{IsExpendable, scale_down_choice}
use k0smotron.ControlPlane.Replace.Requests.{IsOneMore, scale_up_requests}
use k0smotron.Examples.Libraries.{upstream, collection_laws, runtime_laws}
use k0smotron.Examples.Specs.{versions, control_plane_config}
use k0smotron.Examples.Worlds.{servers, rolling, world_of, control_plane_of, cluster}

abbrev pub codec : Codec
codec = record {
  marshal = λ s. ok "{\"provisioner\":{}}";
  probe = λ t. ok ("provisioner" ∷ []);
  unmarshal = λ t. ok control_plane_config;
  unmarshal_legacy = λ t. err (plain []);
}

abbrev start : World
start = world_of rolling

remediation_safe_example :
    (deletes (reconcile_unhealthy_machines upstream servers start).1 ≡ deletes start)
    ⊎ ((deletes (reconcile_unhealthy_machines upstream servers start).1 ≡ deletes start + 1)
        × MayDelete start.scope)
remediation_safe_example = remediation_safe upstream servers start

patch_failure_is_lost_example :
    (patch_remediated upstream servers "cp-1" (fail (plain [])) start).0 ≡ (fail (plain []) start).0
patch_failure_is_lost_example =
    patch_failure_is_lost upstream servers runtime_laws "cp-1" (fail (plain [])) start

manual_deletions_count_example :
    (deletes (reconcile_manual_deletions upstream servers start).1
      ≤ deletes start + count (is_gone start) start.scope.active_machines)
    × ((reconcile_manual_deletions upstream servers start).0 ≢ err fault
        → deletes (reconcile_manual_deletions upstream servers start).1
          ≡ deletes start + count (is_gone start) start.scope.active_machines)
manual_deletions_count_example = manual_deletions_count upstream servers start

scale_up_requests_example :
    IsOneMore
      (creates start)
      (deletes start)
      (scale_up upstream versions codec servers start).0
      (scale_up upstream versions codec servers start).1
scale_up_requests_example = scale_up_requests upstream versions codec servers start

scale_down_choice_example :
    (m : String) × IsExpendable upstream collection_laws start m
    × ((scale_down upstream servers start).1.calls ≡ start.calls ++ delete_machine m ∷ [])
unfolding is_needed_scale_down
scale_down_choice_example = scale_down_choice upstream collection_laws servers start refl refl

forced_labels_example :
    (lookup cluster_name_label
        (control_plane_common_labels upstream (control_plane_of 3 update_recreate) "demo")
      ≡ some "demo")
    × (lookup control_plane_label
          (control_plane_common_labels upstream (control_plane_of 3 update_recreate) "demo")
        ≡ some "true")
    × (lookup control_plane_name_label
          (control_plane_common_labels upstream (control_plane_of 3 update_recreate) "demo")
        ≡ some "cp")
forced_labels_example = forced_labels upstream (control_plane_of 3 update_recreate) "demo"

abbrev infra_ref : ObjectRef
infra_ref = record {
  kind = "DockerMachine";
  name = "cp-new";
  api_group = "infrastructure.cluster.x-k8s.io";
}

generate_machine-IsReadyToCreate_example :
    ((config : String) × (o : Machine) × (generate_k0s_config_annotation_value upstream versions
          codec rolling.kcp "cp-new"
        ≡ ok config)
      × (generate_machine upstream versions codec "cp-new" cluster rolling.kcp infra_ref "a" ≡ ok o)
      × IsReadyToCreate upstream versions codec "cp-new" rolling.kcp config o)
    ⊎ ((e : Error) × (generate_k0s_config_annotation_value upstream versions codec rolling.kcp
            "cp-new"
          ≡ err e)
        × (generate_machine upstream versions codec "cp-new" cluster rolling.kcp infra_ref "a"
            ≡ err e))
generate_machine-IsReadyToCreate_example =
    generate_machine-IsReadyToCreate upstream versions codec "cp-new" cluster rolling.kcp infra_ref
      "a"
