-- ===== src/Bootstrap/Conversion/RoundTrip.antt =====
-- What the conversions keep, and what they lose.
use mathlib.Core.Path.{subst}
use k0smotron.Prelude.{
  is_some, true, false, inl, inr, String, Option, none, some, ◌≡◌, ◌↔◌, ◌⊎◌, refl, arith, ◌==◌,
  eq_iff, ap, sym, ◌∙◌,
}
use k0smotron.Kube.{ProvisionerSpec, ContentSource, IgnitionSpec, K0sConfigSpec}
use k0smotron.Bootstrap.Conversion.{
  cloud_init, ignition_format, linux, LegacyConfigSpec, LegacyWorkerSpec, convert_config_to_v1beta2,
  convert_config_to_v1beta1, convert_worker_to_v1beta2, convert_worker_to_v1beta1, with_user_data,
  provisioner_of, ignition_of,
}

user_data_kept :
    (p : String) (i : Option IgnitionSpec) (r : Option ContentSource)
    → let q = with_user_data r (provisioner_of p i) in
      (q.custom_user_data_ref ≡ r) × (ignition_of q ≡ i)
unfolding with_user_data provisioner_of ignition_of
user_data_kept p none none = (refl, refl)
user_data_kept p none (some r) = (refl, refl)
user_data_kept p (some i) none = (refl, refl)
user_data_kept p (some i) (some r) = (refl, refl)

-- A v1beta1 controller configuration comes back unchanged from v1beta2.
pub config_round_trip :
    (s : LegacyConfigSpec) → convert_config_to_v1beta1 (convert_config_to_v1beta2 s) ≡ s
unfolding convert_config_to_v1beta1 convert_config_to_v1beta2
config_round_trip s = ground (arith, user_data_kept linux s.ignition s.custom_user_data_ref)

-- A v1beta1 worker configuration comes back from v1beta2 without its custom user data reference,
-- and otherwise unchanged.
pub worker_round_trip :
    (s : LegacyWorkerSpec)
    → convert_worker_to_v1beta1 (convert_worker_to_v1beta2 s)
      ≡ record s { custom_user_data_ref = none }
unfolding convert_worker_to_v1beta1 convert_worker_to_v1beta2
worker_round_trip s = ground (arith, user_data_kept "" s.ignition s.custom_user_data_ref)

-- A v1beta1 worker configuration comes back unchanged from v1beta2 exactly when it had no custom
-- user data reference.
pub worker_round_trip_iff :
    (s : LegacyWorkerSpec)
    → (convert_worker_to_v1beta1 (convert_worker_to_v1beta2 s) ≡ s)
      ↔ (s.custom_user_data_ref ≡ none)
worker_round_trip_iff s = (
  λ e. ap (λ (t : LegacyWorkerSpec). t.custom_user_data_ref) (sym e ∙ worker_round_trip s),
  λ e. worker_round_trip s ∙ ground arith,
)

-- The provisioners that v1beta1 can express.
abbrev pub IsLegacy : ProvisionerSpec → Type 0
IsLegacy p =
    (p.platform ≡ linux)
    × (((p.format ≡ cloud_init) × (p.ignition ≡ none))
        ⊎ ((p.format ≡ ignition_format) × (is_some p.ignition ≡ true)))

back : ProvisionerSpec → ProvisionerSpec
unfolding with_user_data provisioner_of ignition_of
back p = with_user_data p.custom_user_data_ref (provisioner_of linux (ignition_of p))

fields_of_back :
    (p : ProvisionerSpec)
    → ((back p).platform ≡ linux)
      × ((((back p).format ≡ cloud_init) × ((back p).ignition ≡ none))
          ⊎ (((back p).format ≡ ignition_format) × (is_some (back p).ignition ≡ true)))
unfolding back
fields_of_back p = by_fields (ignition_of p) p.custom_user_data_ref
  where
    by_fields :
        (i : Option IgnitionSpec) (r : Option ContentSource)
        → IsLegacy (with_user_data r (provisioner_of linux i))
    by_fields none none = (refl, inl (refl, refl))
    by_fields none (some r) = (refl, inl (refl, refl))
    by_fields (some i) none = (refl, inr (refl, refl))
    by_fields (some i) (some r) = (refl, inr (refl, refl))

cloud_init-ne : (cloud_init == ignition_format) ≡ false
cloud_init-ne = refl

back_of_IsLegacy : (p : ProvisionerSpec) → IsLegacy p → back p ≡ p
unfolding back
back_of_IsLegacy p h = ground (arith, eq_iff p.format ignition_format, cloud_init-ne)

-- A v1beta2 controller configuration comes back unchanged from v1beta1 exactly when it has no
-- secret metadata, its platform is linux, and its format is cloud-config without an ignition
-- spec or ignition with one.
pub hub_round_trip_iff :
    (s : K0sConfigSpec)
    → (convert_config_to_v1beta2 (convert_config_to_v1beta1 s) ≡ s)
      ↔ ((s.secret_metadata ≡ none) × IsLegacy s.provisioner)
unfolding convert_config_to_v1beta1 convert_config_to_v1beta2 back
hub_round_trip_iff s = (
  λ e. (
    sym (ap (λ (t : K0sConfigSpec). t.secret_metadata) e),
    subst IsLegacy (ap (λ (t : K0sConfigSpec). t.provisioner) e) (fields_of_back s.provisioner),
  ),
  λ h. ground (arith, back_of_IsLegacy s.provisioner h.1),
)
