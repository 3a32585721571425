-- ===== src/Kube/Objects.antt =====
-- The fields that the controllers use of the Kubernetes and Cluster API objects, and the spec
-- and status of api/controlplane/v1beta2. Times and durations are in nanoseconds.
use k0smotron.Prelude.{ℕ, String, List, Bool, Option, StringMap}
use k0smotron.Kube.Unstructured.{Fields}
use k0smotron.Kube.Specs.{K0sConfigSpec}

abbrev pub second : ℕ
second = 1000000000

abbrev pub minute : ℕ
minute = 60000000000

pub data ConditionStatus : Type 0 where
  condition_true condition_false condition_unknown : ConditionStatus

-- metav1.Condition
pub record Condition : Type 0 where
  pub kind : String
  pub status : ConditionStatus
  pub reason : String
  pub message : String
  pub last_transition : ℕ

-- clusterv1.ContractVersionedObjectReference
pub record ObjectRef : Type 0 where
  pub kind : String
  pub name : String
  pub api_group : String

-- clusterv1.Machine
pub record Machine : Type 0 where
  pub name : String
  pub version : String
  pub deleting : Bool
  pub created : ℕ
  pub labels : StringMap
  pub annotations : StringMap
  pub conditions : List Condition
  pub node_ref_name : String
  pub infrastructure_ref : ObjectRef
  pub config_ref : ObjectRef
  pub failure_domain : String

-- bootstrapv2.K0sControllerConfig; the spec is an embedded pointer.
pub record ControllerConfig : Type 0 where
  pub name : String
  pub labels : StringMap
  pub annotations : StringMap
  pub version : String
  pub spec : Option K0sConfigSpec

-- An infrastructure machine, read as unstructured content.
pub record InfraMachine : Type 0 where
  pub api_version : String
  pub kind : String
  pub name : String
  pub labels : StringMap
  pub annotations : StringMap
  pub content : Fields

pub data UpdateStrategy : Type 0 where
  update_in_place update_recreate update_recreate_delete_first : UpdateStrategy

-- corev1.ObjectReference of the machine template
pub record TemplateRef : Type 0 where
  pub name : String
  pub api_version : String
  pub kind : String
  pub group_kind : String

-- cpv1beta2.K0sControlPlaneSpec with its K0sControlPlaneMachineTemplate
pub record KcpSpec : Type 0 where
  pub version : String
  pub replicas : ℕ
  pub update_strategy : UpdateStrategy
  pub k0s_config_spec : K0sConfigSpec
  pub template_labels : StringMap
  pub template_annotations : StringMap
  pub infrastructure_ref : TemplateRef

-- cpv1beta2.K0sControlPlaneStatus
pub record KcpStatus : Type 0 where
  pub initialized : Option Bool
  pub external_managed : Option Bool
  pub replicas : Option ℕ
  pub ready_replicas : Option ℕ
  pub available_replicas : Option ℕ
  pub up_to_date_replicas : Option ℕ
  pub version : String
  pub conditions : List Condition

-- cpv1beta2.K0sControlPlane
pub record Kcp : Type 0 where
  pub name : String
  pub uid : String
  pub deleting : Bool
  pub created : ℕ
  pub annotations : StringMap
  pub finalizer : Bool
  pub spec : KcpSpec
  pub status : KcpStatus

pub record FailureDomain : Type 0 where
  pub name : String
  pub control_plane : Option Bool

-- clusterv1.Cluster
pub record Cluster : Type 0 where
  pub name : String
  pub annotations : StringMap
  pub failure_domains : List FailureDomain
  pub endpoint_host : String

-- ctrl.Result
pub record CtrlResult : Type 0 where
  pub requeue : Bool
  pub requeue_after : ℕ
