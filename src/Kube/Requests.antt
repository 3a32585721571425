-- ===== src/Kube/Requests.antt =====
-- Requests to the API servers, and how the servers answer. An answer may depend on all the
-- requests that were sent before, so it can change during a reconciliation.
use k0smotron.Prelude.{ℕ, String, List, Bool, Option}
use k0smotron.Kube.Unstructured.{Json}
use k0smotron.Kube.Objects.{Machine, InfraMachine, ControllerConfig, ObjectRef}
use k0smotron.Kube.Errors.{ApiError, Error, Result}

-- autopilot.PlanParameters, with the download addresses that CreatePlan puts in.
pub record PlanRequest : Type 0 where
  pub id : String
  pub timestamp : String
  pub version : String
  pub target : String
  pub nodes : List String
  pub amd64_url : String
  pub arm64_url : String
  pub arm_url : String

-- The requests that write.
pub data Call : Type 0 where
  delete_machine : String → Call
  apply_machine : Machine → Call
  patch_machine : Machine → Call
  patch_machine_status : Machine → Call
  patch_template : String → Call
  apply_infra : InfraMachine → Call
  merge_infra : InfraMachine → Call
  patch_infra : InfraMachine → Call
  apply_config : ControllerConfig → Call
  patch_config : ControllerConfig → Call
  leave_etcd_member : String → Call
  leave_control_node : String → Call
  delete_etcd_member : String → Call
  delete_control_node : String → Call
  create_plan : PlanRequest → Call
  delete_plan : Call

-- The servers, the clock and the name generator.
pub record Api : Type 0 where
  -- `none` is success
  pub reply : List Call → Call → Option ApiError
  pub list_machines : List Call → Result ApiError (List Machine)
  pub get_infra_cached : List Call → ObjectRef → Result ApiError InfraMachine
  pub get_infra_live : List Call → ObjectRef → Result ApiError InfraMachine
  pub get_config_cached : List Call → ObjectRef → Result ApiError Json
  pub get_config_live : List Call → ObjectRef → Result ApiError Json
  pub get_template : List Call → String → Result ApiError Json
  pub get_extension : List Call → Result ApiError Unit
  -- whether the client set is not nil
  pub workload_clientset : List Call → Result Error Bool
  pub get_control_node : List Call → String → Result ApiError ℕ
  pub get_etcd_member : List Call → String → Result ApiError Json
  pub get_plan : List Call → Result ApiError Json
  pub now : List Call → ℕ
  pub generate_name : List Call → String → String
  -- how often a poll runs before its context is done
  pub poll_attempts : ℕ
