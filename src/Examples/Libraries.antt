-- ===== src/Examples/Libraries.antt =====
-- The third-party code, made of small functions that keep its laws.
use k0smotron.Prelude.{
  String, List, [], ◌∷◌, Bool, true, false, not, ◌==◌, ==_self, eq_iff, Option, none, some, ◌≡◌,
  refl, keep, has, leb, if◌then◌else◌, arith, Option-cases, inl, inr, nat_eq,
}
use k0smotron.Kube.{
  Upstream, CollectionLaws, ConditionLaws, RuntimeLaws, SetLaws, DiffLaws, Condition,
  ConditionStatus, condition_true, condition_false, condition_unknown, Machine, FailureDomain,
  Error, wrap, ok, Json, Fields, no_fields, field, text, array, object, item_list,
}

abbrev status_true : ConditionStatus → Bool
status_true condition_true = true
status_true condition_false = false
status_true condition_unknown = false

abbrev status_false : ConditionStatus → Bool
status_false condition_true = false
status_false condition_false = true
status_false condition_unknown = false

abbrev get_condition : List Condition → String → Option Condition
get_condition [] kind = none
get_condition (c ∷ cs) kind =
    let rest = get_condition cs kind in if c.kind == kind then some c else rest

abbrev delete_condition : List Condition → String → List Condition
delete_condition cs kind = keep (λ c. not (c.kind == kind)) cs

abbrev set_condition : List Condition → Condition → List Condition
set_condition cs c = record c { last_transition = 7 } ∷ delete_condition cs c.kind

abbrev has_status : (ConditionStatus → Bool) → List Condition → String → Bool
has_status p cs kind = elim (get_condition cs kind) [ some c ↦ p c.status | none ↦ false ]

-- The older of a machine and another that there may be.
abbrev older : (String → Machine) → String → Option String → String
older t m none = m
older t m (some o) = if leb (t m).created (t o).created then m else o

abbrev oldest : (String → Machine) → List String → Option String
oldest t [] = none
oldest t (m ∷ ms) = some (older t m (oldest t ms))

abbrev aggregate : List Error → Option Error
aggregate [] = none
aggregate (e ∷ es) = some e

abbrev wrap_option : Option Error → List String → Option Error
wrap_option none msg = none
wrap_option (some e) msg = some (wrap msg e)

abbrev first_name : List FailureDomain → String
first_name [] = ""
first_name (d ∷ ds) = d.name

abbrev find : String → Fields → Option Json
find key no_fields = none
find key (field k v r) = let rest = find key r in if k == key then some v else rest

abbrev member : String → Option Json → Option Json
member key (some (object fs)) = find key fs
member key _ = none

abbrev at_path : List String → Option Json → Option Json
at_path [] j = j
at_path (key ∷ keys) j = at_path keys (member key j)

abbrev as_text : Option Json → Option String
as_text (some (text s)) = some s
as_text _ = none

abbrev as_items : Option Json → Option (List Json)
as_items (some (array vs)) = some (item_list vs)
as_items _ = none

abbrev as_fields : Option Json → Option Fields
as_fields (some (object fs)) = some fs
as_fields _ = none

abbrev texts : List Json → List String
texts [] = []
texts (text s ∷ js) = s ∷ texts js
texts (_ ∷ js) = texts js

abbrev as_texts : Option (List Json) → Option (List String)
as_texts none = none
as_texts (some js) = some (texts js)

abbrev pub upstream : Upstream
upstream = record {
  is_true = has_status status_true;
  is_false = has_status status_false;
  get_condition = get_condition;
  set_condition = set_condition;
  delete_condition = delete_condition;
  filter = keep;
  difference = λ ms ns. keep (λ m. not (has m ns)) ms;
  oldest = oldest;
  newest = oldest;
  sorted_by_creation = λ t ms. ms;
  has_deletion_timestamp = λ m. m.deleting;
  active_machine = λ m. not m.deleting;
  unhealthy_and_owner_remediated = λ m. has_status status_false m.conditions "OwnerRemediated";
  control_plane_machine = λ name m. true;
  pick_fewest = λ ds t ms up. first_name ds;
  nested_string = λ j path. ok (as_text (at_path path (some j)));
  nested_slice = λ j path. ok (as_items (at_path path (some j)));
  nested_map = λ j path. ok (as_fields (at_path path (some j)));
  nested_string_slice = λ j path. ok (as_texts (as_items (at_path path (some j))));
  set_nested_map = λ j fs path. ok j;
  set_nested_field = λ j v path. ok j;
  get_api_version = λ j. "infrastructure.cluster.x-k8s.io/v1beta1";
  get_kind = λ j. "DockerMachineTemplate";
  merge_infra_machine = λ a b. ok a;
  format_value = λ s. s;
  is_zero = λ r. if r.requeue then false else nat_eq r.requeue_after 0;
  from_unstructured =
      λ j. ok (record { name = "cp-1"; labels = []; annotations = []; version = ""; spec = none });
  no_diff = λ a b. true;
  deep_equal_spec = λ a b. true;
  deep_equal_map = λ a b. true;
  join_path = λ a b. b;
  decimal = λ n. "0";
  sorted_set = λ xs. xs;
  new_aggregate = aggregate;
  wrapf = wrap_option;
  error_text = λ e. "";
}

oldest_member :
    (t : String → Machine) (ms : List String) (m : String) → oldest t ms ≡ some m → has m ms ≡ true
oldest_member t [] m h = cc
oldest_member t (x ∷ ms) m h = elim (Option-cases (oldest t ms)) [
  | inl e ↦ ground (arith, eq_iff x m)
  | inr (o, e) ↦ ground (arith, eq_iff x m, oldest_member t ms o e)
]

pub collection_laws : CollectionLaws upstream
collection_laws = record {
  filter_keep = λ p ms. refl;
  difference_keep = λ ms ns. refl;
  oldest_member = oldest_member;
  oldest_some = λ t m ms. (_, refl);
  oldest_nil = λ t. refl;
  deletion_timestamp = λ m. refl;
  active_negation = λ m. refl;
}

pub condition_laws : ConditionLaws upstream
condition_laws = record { get_set = λ cs c. (7, ground (arith, ==_self c.kind)) }

pub runtime_laws : RuntimeLaws upstream
runtime_laws = record {
  is_zero_iff = λ r. ((λ h. ground arith), (λ h. ground arith));
  aggregate_nil = refl;
  aggregate_cons = λ e es. (e, refl);
  wrapf_nil = λ msg. refl;
  wrapf_some = λ e msg. (_, refl);
}

pub set_laws : SetLaws upstream
set_laws = record { sorted_set_member = λ a xs. refl }

pub diff_laws : DiffLaws upstream
diff_laws = record { no_diff_self = λ a. refl }
