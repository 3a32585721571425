-- ===== src/Lib.antt =====
-- k0smotron runs k0s control planes and workers with Cluster API: API types with their webhooks and
-- conversions (api/), and controllers that reconcile them (internal/controller/). This library models
-- the part that manages a control plane made of machines (K0sControlPlane), the bootstrap
-- configurations that its machines are made from, and the machines that are reached over SSH.
--
-- The control plane controller (internal/controller/controlplane) computes which machines are up to
-- date, remediates unhealthy machines, finishes deletions, waits until the latest machine is ready,
-- updates the k0s version in place where that is asked for, by a plan of the k0s autopilot or through
-- Cluster API, and then scales up or down by one machine. It writes Machine objects, infrastructure
-- machines and K0sControllerConfigs through the API server, and leaves the etcd cluster of the
-- workload cluster through k0s resources there. At its end it reports the availability of the workload cluster.
-- The RemoteMachine controller (internal/controller/infrastructure) provisions a machine that is
-- given by its address or reserved from a pool, and gives it back.
--
-- Where things are:
--   Prelude       names of the standard library that all use, Boolean tests on native numbers, lists
--                 measured by native numbers, maps, and the functions of Go's package strings
--   Kube          the objects and specs (api/bootstrap/v1beta2/k0s_types.go,
--                 api/controlplane/v1beta2/k0s_types.go), errors, requests, and third-party code
--   Bootstrap/Args        WorkerEnabled (api/bootstrap/v1beta2/k0s_types.go)
--   Bootstrap/Install     the commands and files of a machine (internal/controller/bootstrap/common.go,
--                         and the command builders of the two controllers beside it)
--   Bootstrap/JoinHost    detectJoinHost and findFirstControllerIP (controlplane_bootstrap_controller.go)
--   Bootstrap/Conversion  api/bootstrap/v1beta1/k0s_controller_config_conversion.go and
--                         k0s_worker_config_conversion.go
--   Bootstrap/Validation  Validate and ValidateFileOwners (api/bootstrap/v1beta2/k0s_types.go)
--   ControlPlane/Scope        struct controlplane (k0s_controlplane_controller.go)
--   ControlPlane/Action       actions on the struct, the objects and the clusters that may fail
--   ControlPlane/Scaling      calculateMaxSurge, isNeededScaleUp, isNeededScaleDown,
--                             isDesiredStateReached (scale.go)
--   ControlPlane/Replace      scaleUp, scaleDown, nextFailureDomain (scale.go)
--   ControlPlane/Template     generateMachine and the other new objects (helper.go, util.go)
--   ControlPlane/Machines     deleteMachine, checkMachineLeft, deleteK0sNodeResources and what they
--                             call (helper.go, scale.go)
--   ControlPlane/Remediation  reconcileUnhealthyMachines (remediation.go)
--   ControlPlane/Deletions    reconcileManualDeletions (scale.go)
--   ControlPlane/Readiness    preflightChecks, isLatestMachineReady, checkMachineIsReady
--   ControlPlane/Availability availabilityCondition, computeAvailability, requeueResult (status.go)
--   ControlPlane/Status       computeReplicas, setScalingConditions, versionMatches, minVersion
--                             (status.go, helper.go)
--   ControlPlane/Drift        isBootstrapConfigUpToDate, isInfraMachineUpToDate (helper.go)
--   ControlPlane/Retrieval    retrieveControlPlaneState, calculateMachineState
--                             (k0s_controlplane_controller.go)
--   ControlPlane/Hooks, Trigger, InPlace   in-place updates (inplace.go)
--   ControlPlane/Reconcile    reconcileMachines (scale.go), reconcileDelete
--                             (k0s_controlplane_controller.go)
--   ControlPlane/Report       updateStatus (status.go), the deferred function of Reconcile
--                             (k0s_controlplane_controller.go)
--   ControlPlane/Admission    api/controlplane/v1beta2/k0s_controlplane_webhook.go
--   Autopilot     internal/autopilot/autopilot.go
--   RemoteMachine           api/infrastructure/v1beta2/remote_machine_types.go
--   RemoteMachine/Pool      reserving a machine of a pool and giving it back
--   RemoteMachine/Report    updateStatus
--   RemoteMachine/Inputs    what it reads and changes
--   RemoteMachine/Reconcile Reconcile (internal/controller/infrastructure/remote_machine_controller.go)
--   ProviderId    internal/controller/bootstrap/providerid_controller.go
--   FeatureGates  internal/featuregate
--   Examples      runs on concrete inputs
--
-- How the code corresponds:
--   - A reconciliation is a function on a World: the struct, the table of Machine objects, and the
--     write requests sent so far. Machines are shared by pointer in Go, so a collection of machines is
--     a list of names and one table holds the objects.
--   - A function that returns an error is an action, which returns a result and the state that it
--     leaves, also when it fails. A panic is the error `fault`, which passes code that looks at errors
--     by, as a panic does.
--   - The API servers are the parameter Api. An answer may depend on all requests sent before, so
--     objects and answers can change at any time.
--   - Third-party code is the parameter Upstream (cluster-api, apimachinery, controller-runtime,
--     pkg/errors, mergo), VersionLib (k0sproject/version) and Codec (encoding/json). The theorems that
--     rely on their behaviour name it as laws, and Examples/Libraries has functions that keep the laws.
--   - Numbers are natural numbers. Replicas are not negative by validation of the API; `Len() - 1`
--     stops at 0, which the tests treat as they do -1. Times are in nanoseconds.
--   - Polling is recursion on the number of attempts that its timeout allows, a field of Api; when
--     they are used up the result is the deadline error, as in the code.
--   - The goroutine that follows an autopilot plan is one round of its poll; whether it runs is a flag
--     of the World, which starting and stopping it change.
--   - The reconciliation of a RemoteMachine reads each thing once, so what it reads is a record Inputs;
--     the pool is the list of the objects on the server.
--   - The search for a node, page by page, has no bound of its own: it is recursion on a number of
--     requests, which the list below compares with the number of pages.
--   - The addresses and URLs that net, netip and net/url parse are parameters where they are used.
--   - Log output, namespaces and owner references are left out, and messages are lists of their parts.
--
-- Not modelled: kubeconfig and certificates, tunneling and the dynamic configuration, which Reconcile
-- of the control plane controller calls, and Reconcile itself but for its deferred function; the loops
-- of the bootstrap controllers with their tokens, certificates and Windows commands, the provisioners,
-- hosted control planes (internal/controller/k0smotron.io), the SSH and job provisioners,
-- RemoteCluster, and the in-place extension: they are not reached yet, or are clients of other
-- systems. Start-up code in cmd, generated code, tests and tools hold no logic of the program.
pub mod Prelude
pub mod Kube
pub mod Bootstrap
pub mod Autopilot
pub mod ControlPlane
pub mod RemoteMachine
pub mod ProviderId
pub mod FeatureGates
pub mod Examples
