-- ===== src/ControlPlane/Status.antt =====
-- The counts and versions that the status reports: computeReplicas, setScalingConditions,
-- versionMatches and getVersionSuffix in internal/controller/controlplane/status.go, and minVersion
-- in helper.go. A scaling message is left out.
pub mod Counts
pub mod Deleting
use Prim.Native.String.{◌++◌}
use k0smotron.Prelude.{
  ℕ, ◌+◌, String, List, [], ◌∷◌, Bool, true, false, ◌&&◌, not, ◌==◌, Option, none, some, length,
  count, ltb, contains, split, if◌then◌else◌,
}
use k0smotron.Kube.{
  Upstream, VersionLib, Condition, ConditionStatus, condition_true, condition_false, Kcp, Error,
  plain, Result, ok, err, and_then,
}
use k0smotron.Bootstrap.Args.{worker_enabled}
use k0smotron.ControlPlane.Scope.{Scope, World, set_scope}

-- strings.Split(version, "+")[1], where there is one
second_part : List String → String
second_part (a ∷ b ∷ rest) = b
second_part _ = ""

pub get_version_suffix : String → String
unfolding second_part
get_version_suffix version = if contains version "+" then second_part (split b'+' version) else ""

module _ (v : VersionLib) where
  -- The two versions after the suffixes were put in. `none` is the panic of MustParse.
  both_equal : Option v.Version → Option v.Version → Option Bool
  both_equal (some machine) (some kcp) = some (v.equal kcp machine)
  both_equal _ _ = none

  with_suffix : String → String → String
  with_suffix suffix version =
      if get_version_suffix version == "" then version ++ "+" ++ suffix else version

  -- The suffix that a version without one is given.
  suffix_for : String → String
  suffix_for version =
      if get_version_suffix version == "" then "k0s.0" else get_version_suffix version

  unfoldable pub version_matches : String → String → Option Bool
  unfolding both_equal with_suffix suffix_for
  version_matches machine_version version =
      if machine_version == ""
      then some false
      else if machine_version == version
      then some true
      else both_equal (v.new_version (with_suffix (suffix_for version) machine_version))
          (v.new_version (with_suffix (suffix_for version) version))

  parse_all : List String → Result Error (List v.Version)
  parse_all [] = ok []
  parse_all (s ∷ ss) =
      let rest = parse_all ss in
      elim (v.new_version s) [
        | none ↦ err (plain ("failed to parse version" ∷ s ∷ []))
        | some x ↦ and_then rest (λ xs. ok (x ∷ xs))
      ]

  lowest_of : List v.Version → String
  lowest_of [] = ""
  lowest_of (x ∷ xs) = v.to_string (v.lowest x xs)

  -- The versions of the machines of the collection.
  pub min_version : List String → Result Error String
  unfolding parse_all lowest_of
  min_version versions = and_then (parse_all versions) (λ xs. ok (lowest_of xs))

-- append(allReplicas, list...)
append : List String → List String → List String
append [] ys = ys
append (x ∷ xs) ys = x ∷ append xs ys

names_to_versions : World → List String → List String
names_to_versions w [] = []
names_to_versions w (m ∷ ms) = (w.machines m).version ∷ names_to_versions w ms

-- The version of the control plane's status.
status_version : String → String → String
unfolding second_part
status_version spec lowest =
    if contains spec "+" && (not (contains lowest "+") && not (lowest == ""))
    then lowest ++ "+" ++ second_part (split b'+' spec)
    else lowest

module _ (u : Upstream) (v : VersionLib) where
  scaling_condition : String → Bool → String → String → Condition
  scaling_condition kind holds yes_reason no_reason = record {
    kind = kind;
    status = if holds then condition_true else condition_false;
    reason = if holds then yes_reason else no_reason;
    message = "";
    last_transition = 0;
  }

  pub set_scaling_conditions : World → World
  unfolding scaling_condition
  set_scaling_conditions w =
      let s = w.scope in
      let kcp = s.kcp in
      let status = kcp.status in
      let up_to_date = length s.up_to_date_machines in
      let up =
        scaling_condition "ScalingUp" (ltb up_to_date kcp.spec.replicas) "ScalingUp"
          "NotScalingUp" in
      let down =
        scaling_condition "ScalingDown" (ltb kcp.spec.replicas up_to_date) "ScalingDown"
          "NotScalingDown" in
      set_scope
        (record s {
          kcp = record kcp {
            status = record status {
              conditions = u.set_condition (u.set_condition status.conditions up) down;
            };
          };
        })
        w

  -- The four counts, over the active and the deleted machines together.
  set_counts : World → World
  set_counts w =
      let s = w.scope in
      let kcp = s.kcp in
      let status = kcp.status in
      let all = append s.active_machines s.deleted_machines in
      set_scope
        (record s {
          kcp = record kcp {
            status = record status {
              replicas = some (length all);
              ready_replicas = some (count (λ m. u.is_true (w.machines m).conditions "Ready") all);
              up_to_date_replicas =
                  some (count (λ m. u.is_true (w.machines m).conditions "UpToDate") all);
              available_replicas =
                  some (count (λ m. u.is_true (w.machines m).conditions "Available") all);
            };
          };
        })
        w

  set_version : String → World → World
  unfolding status_version
  set_version lowest w =
      let s = w.scope in
      let kcp = s.kcp in
      let status = kcp.status in
      set_scope
        (record s {
          kcp = record kcp {
            status = record status {
              version = status_version kcp.spec.version lowest;
              external_managed =
                  if worker_enabled (some kcp.spec.k0s_config_spec)
                  then status.external_managed
                  else some true;
            };
          };
        })
        w

  finish_status : Result Error String → World → Result Error Unit × World
  unfolding set_scaling_conditions set_version
  finish_status (err e) w = (err e, w)
  finish_status (ok lowest) w = (ok tt, set_scaling_conditions (set_version lowest w))

  pub compute_replicas : World → Result Error Unit × World
  unfolding finish_status set_counts append names_to_versions
  compute_replicas w =
      let w1 = set_counts w in
      finish_status (min_version v (names_to_versions w w.scope.active_machines)) w1
