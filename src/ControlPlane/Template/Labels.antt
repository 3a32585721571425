-- ===== src/ControlPlane/Template/Labels.antt =====
-- What a new machine always carries.
use k0smotron.Prelude.{
  String, [], true, none, some, ◌≡◌, refl, lookup, insert, lookup-insert, lookup-insert_self,
  has_key, copy_into, inl, inr, ◌⊎◌, has_key-insert, has_key-copy_into,
}
use k0smotron.Kube.{
  Upstream, VersionLib, ok, err, Error, Kcp, Cluster, ObjectRef, Machine, Result-cases,
}
use k0smotron.ControlPlane.Machines.{pre_terminate_hook}
use k0smotron.ControlPlane.Template.{
  Codec, cluster_name_label, control_plane_label, control_plane_name_label, k0s_config_annotation,
  control_plane_common_labels, generate_k0s_config_annotation_value, generate_machine,
  machine_object, get_machine_k0s_config, config_by_annotation, no_annotation,
}

-- The labels by which Cluster API finds a control plane's objects always have the cluster's values,
-- whatever labels the machine template has.
pub forced_labels :
    (u : Upstream) (kcp : Kcp) (name : String)
    → let labels = control_plane_common_labels u kcp name in
      (lookup cluster_name_label labels ≡ some name)
      × (lookup control_plane_label labels ≡ some "true")
      × (lookup control_plane_name_label labels ≡ some (u.format_value kcp.name))
unfolding control_plane_common_labels
forced_labels u kcp name = (
  simp lookup-insert,
  simp lookup-insert,
  lookup-insert_self control_plane_name_label (u.format_value kcp.name) _,
)

module _ (u : Upstream) (v : VersionLib) (c : Codec) where
  -- What is promised of the machine with the given name and configuration.
  abbrev pub IsReadyToCreate : String → Kcp → String → Machine → Type 0
  IsReadyToCreate name kcp config o =
      (o.name ≡ name)
      × (o.version ≡ kcp.spec.version)
      × (has_key pre_terminate_hook o.annotations ≡ true)
      × (lookup k0s_config_annotation o.annotations ≡ some config)

  machine_object-IsReadyToCreate :
      (name : String) (cluster : Cluster) (kcp : Kcp) (r : ObjectRef) (fd config : String)
      → IsReadyToCreate name kcp config (machine_object u v c name cluster kcp r fd config)
  unfolding machine_object
  machine_object-IsReadyToCreate name cluster kcp r fd config =
      let hooked = insert pre_terminate_hook "" [] in
      let own = kcp.spec.template_annotations in
      (
        refl,
        refl,
        has_key-insert k0s_config_annotation pre_terminate_hook config (copy_into hooked own) (
            has_key-copy_into pre_terminate_hook hooked own
              (rw (lookup-insert_self pre_terminate_hook "" []))),
        lookup-insert_self k0s_config_annotation config (copy_into hooked own),
      )

  -- Either the configuration of the machine is generated, and then so is the machine: it has the
  -- control plane's version, it carries the pre-terminate hook whatever annotations the machine
  -- template has, and its configuration annotation is that configuration. Or the error is returned.
  pub generate_machine-IsReadyToCreate :
      (name : String) (cluster : Cluster) (kcp : Kcp) (i : ObjectRef) (fd : String)
      → ((config : String) × (o : Machine) × (generate_k0s_config_annotation_value u v c kcp name
            ≡ ok config)
          × (generate_machine u v c name cluster kcp i fd ≡ ok o)
          × IsReadyToCreate name kcp config o)
        ⊎ ((e : Error) × (generate_k0s_config_annotation_value u v c kcp name ≡ err e)
            × (generate_machine u v c name cluster kcp i fd ≡ err e))
  unfolding generate_machine
  generate_machine-IsReadyToCreate name cluster kcp i fd =
      elim (Result-cases (generate_k0s_config_annotation_value u v c kcp name)) [
        | inl (config, h) ↦ inl (
          config,
          machine_object u v c name cluster kcp i fd config,
          h,
          rw h refl,
          machine_object-IsReadyToCreate name cluster kcp i fd config,
        )
        | inr (e, h) ↦ inr (e, h, rw h refl)
      ]

pub get_machine_k0s_config-missing :
    (c : Codec) (o : Machine)
    → lookup k0s_config_annotation o.annotations ≡ none
    → get_machine_k0s_config c o ≡ err no_annotation
unfolding get_machine_k0s_config config_by_annotation
get_machine_k0s_config-missing c o e = rw e refl
