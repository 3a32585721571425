-- ===== src/Autopilot.antt =====
-- Plans of the k0s autopilot in the workload cluster: internal/autopilot/autopilot.go. A client set
-- that is nil panics where it is used.
use Prim.Native.String.{◌++◌ as push_str}
use k0smotron.Prelude.{
  String, List, [], ◌∷◌, ◌++◌, Bool, true, false, ◌==◌, Option, none, some, if◌then◌else◌,
}
use k0smotron.Kube.{
  Upstream, Api, ApiError, Error, api, plain, wrap, fault, Result, ok, err, and_then, Json, Fields,
  object, PlanRequest, create_plan, delete_plan, field_list,
}
use k0smotron.ControlPlane.Scope.{World}
use k0smotron.ControlPlane.Action.Frame.{Frame, Frame-pure, Frame-fail, Frame-gets, Frame-bind}
use k0smotron.ControlPlane.Action.{M, pure, fail, gets, ◌>>=◌, send, if_failed}

abbrev default_k0s_download_url : String
default_k0s_download_url = "https://get.k0s.sh"

pub record PlanParameters : Type 0 where
  pub id : String
  pub timestamp : String
  pub version : String
  pub download_url : String
  pub target : String
  pub nodes : List String

-- errors.Is(err, ErrUnexpectedPlanState)
pub is_unexpected_plan_state : Error → Bool
is_unexpected_plan_state (plain (t ∷ [])) = t == "unexpected autopilot plan state"
is_unexpected_plan_state (plain t) = false
is_unexpected_plan_state (wrap t e) = is_unexpected_plan_state e
is_unexpected_plan_state (api a) = false
is_unexpected_plan_state fault = false

-- "a" + "b" + ...
concat : List String → String
concat [] = ""
concat (s ∷ ss) = push_str s (concat ss)

default_url : String → String → String
unfolding concat
default_url version arch =
    concat ("https://get.k0sproject.io/" ∷ version ∷ "/k0s-" ∷ version ∷ "-" ∷ arch ∷ [])

-- Where a version for an architecture is downloaded.
plan_url : PlanParameters → String → String
unfolding default_url
plan_url p arch =
    let url = if p.download_url == "" then default_k0s_download_url else p.download_url in
    if url == default_k0s_download_url then default_url p.version arch else url

pub plan_request : PlanParameters → PlanRequest
unfolding plan_url
plan_request p = record {
  id = p.id;
  timestamp = p.timestamp;
  version = p.version;
  target = p.target;
  nodes = p.nodes;
  amd64_url = plan_url p "amd64";
  arm64_url = plan_url p "arm64";
  arm_url = plan_url p "arm";
}

module _ (k : Api) where
  plan_answer : Result ApiError Json → M Json
  plan_answer (ok j) = pure j
  plan_answer (err a) = fail (wrap ("error getting autopilot plan" ∷ []) (api a))

  unfoldable pub get_plan : Bool → M Json
  unfolding plan_answer
  get_plan false = fail fault
  get_plan true = do r ← gets (λ w. k.get_plan w.calls); plan_answer r

  answer-Frame : {B : Type 0} {g : World → B} (r : Result ApiError Json) → Frame g (plan_answer r)
  unfolding plan_answer
  answer-Frame (ok j) = Frame-pure j
  answer-Frame (err a) = Frame-fail _

  -- Reading changes nothing.
  pub get_plan-Frame : {B : Type 0} {g : World → B} (c : Bool) → Frame g (get_plan c)
  unfolding get_plan
  get_plan-Frame false = Frame-fail fault
  get_plan-Frame true = Frame-bind (Frame-gets _) answer-Frame

  unfoldable pub remove_plan : Bool → M (Option ApiError)
  remove_plan false = fail fault
  remove_plan true = send k delete_plan

  unfoldable pub post_plan : Bool → PlanParameters → M Unit
  unfolding plan_request
  post_plan false p = fail fault
  post_plan true p = do e ← send k (create_plan (plan_request p)); if_failed e api

module _ (u : Upstream) where
  completed_by : Result Error (Option String) → Result Error Bool
  completed_by (err e) = err (wrap ("error getting autopilot plan's state" ∷ []) e)
  completed_by (ok none) = err (plain ("autopilot plan state not found" ∷ []))
  completed_by (ok (some state)) =
      if state == "Completed"
      then ok true
      else if state == "NewPlan"
      then ok false
      else if state == "Schedulable"
      then ok false
      else if state == "SchedulableWait"
      then ok false
      else err (wrap (state ∷ []) (plain ("unexpected autopilot plan state" ∷ [])))

  unfoldable pub is_plan_completed : Json → Result Error Bool
  unfolding completed_by
  is_plan_completed plan = completed_by (u.nested_string plan ("status" ∷ "state" ∷ []))

  -- The nodes of one target, in front of those of the others.
  nodes_then :
      String
      → Result Error (Option (List String))
      → Result Error (List String)
      → Result Error (List String)
  nodes_then target (err e) rest = err (wrap ("error reading nodes for target" ∷ target ∷ []) e)
  nodes_then target (ok none) rest = rest
  nodes_then target (ok (some nodes)) rest = and_then rest (λ others. ok (nodes ++ others))

  -- The loop over the targets, in the order in which the map gives them.
  nodes_of : List (String × Json) → Result Error (List String)
  unfolding nodes_then
  nodes_of [] = ok []
  nodes_of ((target, object t) ∷ ts) =
      let rest = nodes_of ts in
      nodes_then target (u.nested_string_slice (object t) ("discovery" ∷ "static" ∷ "nodes" ∷ []))
        rest
  nodes_of ((target, _) ∷ ts) = nodes_of ts

  nodes_of_targets : Result Error (Option Fields) → Result Error (List String)
  unfolding nodes_of
  nodes_of_targets (err e) = err (wrap ("error reading k0supdate.targets" ∷ []) e)
  nodes_of_targets (ok none) = err (plain ("no targets found in plan" ∷ []))
  nodes_of_targets (ok (some targets)) = nodes_of (field_list targets)

  nodes_of_commands : Result Error (Option (List Json)) → Result Error (List String)
  unfolding nodes_of_targets
  nodes_of_commands (err e) = err (wrap ("error reading spec.commands" ∷ []) e)
  nodes_of_commands (ok none) = err (plain ("no commands found in plan" ∷ []))
  nodes_of_commands (ok (some [])) = err (plain ("no commands found in plan" ∷ []))
  nodes_of_commands (ok (some (object c ∷ cs))) =
      nodes_of_targets (u.nested_map (object c) ("k0supdate" ∷ "targets" ∷ []))
  nodes_of_commands (ok (some (_ ∷ cs))) = err (plain ("unexpected type for command" ∷ []))

  unfoldable pub get_plan_target_nodes : Json → Result Error (List String)
  unfolding nodes_of_commands
  get_plan_target_nodes plan = nodes_of_commands (u.nested_slice plan ("spec" ∷ "commands" ∷ []))

  version_or_error : Result Error (Option String) → Result Error String
  version_or_error (ok (some version)) = ok version
  version_or_error _ = err (plain ("error getting current autopilot plan's version" ∷ []))

  -- The type assertion on the first command panics.
  version_of_commands : Result Error (Option (List Json)) → Result Error String
  unfolding version_or_error
  version_of_commands (ok (some (object c ∷ cs))) =
      version_or_error (u.nested_string (object c) ("k0supdate" ∷ "version" ∷ []))
  version_of_commands (ok (some (_ ∷ cs))) = err fault
  version_of_commands _ = err (plain ("error getting current autopilot plan's commands" ∷ []))

  unfoldable pub get_plan_target_version : Json → Result Error String
  unfolding version_of_commands
  get_plan_target_version plan =
      version_of_commands (u.nested_slice plan ("spec" ∷ "commands" ∷ []))
