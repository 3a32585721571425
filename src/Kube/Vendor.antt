-- ===== src/Kube/Vendor.antt =====
-- Third-party code that the controllers call, as parameters, with what its documentation says
-- as named laws. A collections.Machines is its list of keys: the objects behind the keys are
-- shared, so they live in one table.
use k0smotron.Prelude.{
  ℕ, String, List, [], ◌∷◌, Bool, true, false, Option, none, some, ◌≡◌, ◌↔◌, keep, has, not,
}
use k0smotron.Kube.Specs.{K0sConfigSpec}
use k0smotron.Kube.Objects.{
  Condition, Machine, ControllerConfig, InfraMachine, CtrlResult, FailureDomain,
}
use k0smotron.Kube.Errors.{Error, Result}
use k0smotron.Kube.Unstructured.{Json, Fields}

abbrev pub zero_result : CtrlResult
zero_result = record { requeue = false; requeue_after = 0 }

pub record Upstream : Type 0 where
  -- sigs.k8s.io/cluster-api/util/conditions
  pub is_true : List Condition → String → Bool
  pub is_false : List Condition → String → Bool
  pub get_condition : List Condition → String → Option Condition
  pub set_condition : List Condition → Condition → List Condition
  pub delete_condition : List Condition → String → List Condition
  -- sigs.k8s.io/cluster-api/util/collections
  pub filter : (String → Bool) → List String → List String
  pub difference : List String → List String → List String
  pub oldest : (String → Machine) → List String → Option String
  pub newest : (String → Machine) → List String → Option String
  pub sorted_by_creation : (String → Machine) → List String → List String
  pub has_deletion_timestamp : Machine → Bool
  pub active_machine : Machine → Bool
  pub unhealthy_and_owner_remediated : Machine → Bool
  pub control_plane_machine : String → Machine → Bool
  -- sigs.k8s.io/cluster-api/util/failuredomains
  pub pick_fewest : List FailureDomain → (String → Machine) → List String → List String → String
  -- k8s.io/apimachinery/pkg/apis/meta/v1/unstructured: found or not, or an error
  pub nested_string : Json → List String → Result Error (Option String)
  pub nested_slice : Json → List String → Result Error (Option (List Json))
  pub nested_map : Json → List String → Result Error (Option Fields)
  pub nested_string_slice : Json → List String → Result Error (Option (List String))
  pub set_nested_map : Json → Fields → List String → Result Error Json
  pub set_nested_field : Json → String → List String → Result Error Json
  pub get_api_version : Json → String
  pub get_kind : Json → String
  -- runtime.DefaultUnstructuredConverter.FromUnstructured
  pub from_unstructured : Json → Result Error ControllerConfig
  -- `cmp.Diff(a, b) == ""` and reflect.DeepEqual
  pub no_diff : K0sConfigSpec → K0sConfigSpec → Bool
  pub deep_equal_spec : K0sConfigSpec → K0sConfigSpec → Bool
  pub deep_equal_map : Option Json → Option Json → Bool
  -- fmt.Sprintf("%d", n)
  pub decimal : ℕ → String
  -- path/filepath
  pub join_path : String → String → String
  -- github.com/imdario/mergo, into the first
  pub merge_infra_machine : InfraMachine → InfraMachine → Result Error InfraMachine
  -- format.MustFormatValue of cluster-api/internal/labels
  pub format_value : String → String
  -- sigs.k8s.io/controller-runtime, k8s.io/apimachinery, github.com/pkg/errors
  pub is_zero : CtrlResult → Bool
  -- k8s.io/apimachinery/pkg/util/sets: List of the set of the texts of a list
  pub sorted_set : List String → List String
  pub new_aggregate : List Error → Option Error
  pub wrapf : Option Error → List String → Option Error
  pub error_text : Error → String

-- Filter and Difference keep the machines that they say; the order of keys is the map's own.
-- Oldest and Newest answer a member, and nil only for an empty collection.
pub record CollectionLaws (u : Upstream) : Type 0 where
  pub filter_keep : (p : String → Bool) (ms : List String) → u.filter p ms ≡ keep p ms
  pub difference_keep : (ms ns : List String) → u.difference ms ns ≡ keep (λ m. not (has m ns)) ms
  pub oldest_member :
      (t : String → Machine) (ms : List String) (m : String)
      → u.oldest t ms ≡ some m
      → has m ms ≡ true
  pub oldest_some :
      (t : String → Machine) (m : String) (ms : List String)
      → (o : String) × (u.oldest t (m ∷ ms) ≡ some o)
  pub oldest_nil : (t : String → Machine) → u.oldest t [] ≡ none
  pub deletion_timestamp : (m : Machine) → u.has_deletion_timestamp m ≡ m.deleting
  pub active_negation : (m : Machine) → u.active_machine m ≡ not m.deleting

-- sets.List has the set's members and no others.
pub record SetLaws (u : Upstream) : Type 0 where
  pub sorted_set_member : (a : String) (xs : List String) → has a (u.sorted_set xs) ≡ has a xs

-- A spec has no difference from itself.
pub record DiffLaws (u : Upstream) : Type 0 where
  pub no_diff_self : (a : K0sConfigSpec) → u.no_diff a a ≡ true

-- Result.IsZero, NewAggregate of no error, and Wrapf of nil.
pub record RuntimeLaws (u : Upstream) : Type 0 where
  pub is_zero_iff : (r : CtrlResult) → (u.is_zero r ≡ true) ↔ (r ≡ zero_result)
  pub aggregate_nil : u.new_aggregate [] ≡ none
  pub aggregate_cons :
      (e : Error) (es : List Error) → (a : Error) × (u.new_aggregate (e ∷ es) ≡ some a)
  pub wrapf_nil : (msg : List String) → u.wrapf none msg ≡ none
  pub wrapf_some : (e : Error) (msg : List String) → (a : Error) × (u.wrapf (some e) msg ≡ some a)

-- conditions.Get after conditions.Set answers the condition, with a transition time of Set's own.
pub record ConditionLaws (u : Upstream) : Type 0 where
  pub get_set :
      (cs : List Condition) (c : Condition)
      → (t : ℕ) × (u.get_condition (u.set_condition cs c) c.kind
          ≡ some (record c { last_transition = t }))
