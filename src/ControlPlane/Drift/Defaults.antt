-- ===== src/ControlPlane/Drift/Defaults.antt =====
-- Which configurations count as changed.
use k0smotron.Prelude.{
  ℕ, String, Bool, true, false, Option, none, some, ◌≡◌, ◌⊎◌, ◌↔◌, inl, inr, refl, ap, ◌∙◌, lookup,
  nat_eq, ◌==◌, arith,
}
use k0smotron.Kube.{
  Upstream, DiffLaws, Error, fault, Result, ok, err, Machine, K0sConfigSpec, ControllerConfig, Kcp,
  Json,
}
use k0smotron.ControlPlane.Template.{Codec, get_machine_k0s_config, k0s_config_annotation}
use k0smotron.ControlPlane.Template.Labels.{get_machine_k0s_config-missing}
use k0smotron.ControlPlane.Drift.{
  with_v1beta2_defaults, or_default, or_port, unique_args, normalized, is_no_annotation, negated,
  changed_if_there, changed_from, default_download_url,
  remove_args_generated_in_controller_config_reconcile, deprecated_is_k0s_config_changed,
  up_to_date_by, is_bootstrap_config_up_to_date,
}

or_default_twice :
    (s d : String) → (d == "") ≡ false → or_default (or_default s d) d ≡ or_default s d
or_default_twice s d h = ground (arith, h)

or_port_twice : (p d : ℕ) → nat_eq d 0 ≡ false → or_port (or_port p d) d ≡ or_port p d
or_port_twice p d h = ground (arith, h)

-- Defaults are filled in once.
normalized-with_v1beta2_defaults :
    (u : Upstream) (spec : K0sConfigSpec) (j : Option Json)
    → normalized u (with_v1beta2_defaults (record spec { k0s = j })) ≡ normalized u spec
unfolding with_v1beta2_defaults
normalized-with_v1beta2_defaults u spec j =
    let p = spec.provisioner in
    let t = spec.tunneling in
    rw
      (
        or_default_twice spec.k0s_install_dir "/usr/local/bin" refl,
        or_default_twice spec.download_url default_download_url refl,
        or_default_twice p.format "cloud-config" refl,
        or_default_twice p.platform "linux" refl,
        or_port_twice t.server_node_port 31700 refl,
        or_port_twice t.tunneling_node_port 31443 refl,
        or_default_twice t.mode "tunnel" refl,
      )
      refl

-- If the annotation of a machine is read as a configuration, and the control plane's spec is that
-- configuration as the API server shows it, with the defaults filled in and whatever k0s
-- configuration, the machine is up to date.
pub default_only_difference :
    (u : Upstream) (l : DiffLaws u) (c : Codec) (config : ControllerConfig) (kcp : Kcp)
    (o : Machine) (spec : K0sConfigSpec) (j : Option Json)
    → get_machine_k0s_config c o ≡ ok spec
    → kcp.spec.k0s_config_spec ≡ with_v1beta2_defaults (record spec { k0s = j })
    → is_bootstrap_config_up_to_date u c (some config) kcp o ≡ ok true
unfolding is_bootstrap_config_up_to_date up_to_date_by
default_only_difference u l c config kcp o spec j read same =
    let equal = ap (normalized u) same ∙ normalized-with_v1beta2_defaults u spec j in
    rw (read, equal, l.no_diff_self (normalized u spec)) refl

-- The k0s configuration of a bootstrap configuration.
abbrev pub k0s_of : Option K0sConfigSpec → Option Json
k0s_of none = none
k0s_of (some spec) = spec.k0s

negated-fault_iff :
    (u : Upstream) (r : Result Error Bool) → (negated u r ≡ err fault) ↔ (r ≡ err fault)
unfolding negated
negated-fault_iff u (ok b) = ((λ h. cc), (λ h. cc))
negated-fault_iff u (err e) = ((λ h. h), (λ h. h))

changed_if_there-fault_iff :
    (u : Upstream) (a b : K0sConfigSpec) (name : String) (x y : Option Json)
    → (changed_if_there u a b name x y ≡ err fault) ↔ ((x ≡ none) ⊎ (y ≡ none))
unfolding changed_if_there
changed_if_there-fault_iff u a b name none y = ((λ h. inl refl), (λ h. refl))
changed_if_there-fault_iff u a b name (some x) none = ((λ h. inr refl), (λ h. refl))
changed_if_there-fault_iff u a b name (some x) (some y) =
    ((λ h. cc), (λ h. elim h [ inl e ↦ cc | inr e ↦ cc ]))

changed_from-fault_iff :
    (u : Upstream) (a : K0sConfigSpec) (name : String) (s : Option K0sConfigSpec)
    → (changed_from u a name s ≡ err fault) ↔ ((a.k0s ≡ none) ⊎ (k0s_of s ≡ none))
unfolding changed_from remove_args_generated_in_controller_config_reconcile
changed_from-fault_iff u a name none = ((λ h. inr refl), (λ h. refl))
changed_from-fault_iff u a name (some s) =
    changed_if_there-fault_iff u a (remove_args_generated_in_controller_config_reconcile u s) name
      a.k0s s.k0s

-- For a machine without the annotation, the comparison panics exactly when the control plane or the
-- machine's bootstrap configuration has no k0s configuration.
pub comparison_panics_iff :
    (u : Upstream) (c : Codec) (config : ControllerConfig) (kcp : Kcp) (o : Machine)
    → lookup k0s_config_annotation o.annotations ≡ none
    → (is_bootstrap_config_up_to_date u c (some config) kcp o ≡ err fault)
      ↔ ((kcp.spec.k0s_config_spec.k0s ≡ none) ⊎ (k0s_of config.spec ≡ none))
unfolding is_bootstrap_config_up_to_date up_to_date_by is_no_annotation negated
    deprecated_is_k0s_config_changed
comparison_panics_iff u c config kcp o missing = rw (get_machine_k0s_config-missing c o missing) (
    let spec = kcp.spec.k0s_config_spec in
    let asked = record spec { args = unique_args spec.args } in
    let a = negated-fault_iff u (changed_from u asked o.name config.spec) in
    let b = changed_from-fault_iff u asked o.name config.spec in
    ((λ h. b.0 (a.0 h)), (λ h. a.1 (b.1 h))))
