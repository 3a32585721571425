-- ===== src/Examples/Pools.antt =====
-- Pools of two machines, and RemoteMachines that use them.
use k0smotron.Prelude.{String, List, [], ◌∷◌, Bool, true, false, none, some, ◌≡◌, refl}
use k0smotron.Kube.{Condition, condition_true, Result, Error, ok, error_of}
use k0smotron.RemoteMachine.{
  PooledMachineSpec, PooledRemoteMachine, RemoteMachine, RemoteMachineStatus,
}
use k0smotron.RemoteMachine.Pool.{PoolApi, reserve, return_machine_to_pool}
use k0smotron.RemoteMachine.Pool.Reserve.{HasMachine, KeepsReserved, reserve_is_fair}
use k0smotron.RemoteMachine.Pool.Return.{IsGivenBack, return_gives_back}
use k0smotron.RemoteMachine.Report.{failure_of}
use k0smotron.RemoteMachine.Inputs.{OwnerMachine, Inputs, State}
use k0smotron.RemoteMachine.Reconcile.{reconcile, reconcile_ready}
use k0smotron.RemoteMachine.Reconcile.Finalizer.{IsLast, reconcile-IsLast, failure_is_the_error}
use k0smotron.Examples.Libraries.{upstream}

abbrev machine_at : String → PooledMachineSpec
machine_at address = record {
  address = address;
  port = 22;
  user = "root";
  use_sudo = false;
  commands_as_script = false;
  working_dir = "";
  clean_up_commands = [];
  ssh_key_ref = "key";
}

abbrev pooled : String → String → Bool → String → PooledRemoteMachine
pooled name address reserved holder = record {
  name = name;
  namespace = "default";
  labels = [];
  annotations = [];
  pool = "edge";
  machine = machine_at address;
  reserved = reserved;
  machine_ref = record { name = holder; namespace = if_reserved reserved };
}
  where
    if_reserved : Bool → String
    if_reserved true = "default"
    if_reserved false = ""

abbrev no_failures : PoolApi
no_failures = record { list_error = λ store. none; update_error = λ store p. none }

abbrev remote : String → Bool → RemoteMachine
remote name deleting = record {
  name = name;
  namespace = "default";
  deleting = deleting;
  labels = [];
  annotations = [];
  spec = record {
    pool = "edge";
    provider_id = "";
    machine = machine_at "";
    has_provision_job = false;
  };
  status = record { provisioned = none; addresses = []; conditions = []; deprecated = none };
}

-- The first machine is taken by rm-1.
abbrev store : List PooledRemoteMachine
store = pooled "a" "10.0.0.1" true "rm-1" ∷ pooled "b" "10.0.0.2" false "" ∷ []

reserve_is_fair_example :
    let (r, store') = reserve no_failures (remote "rm-2" false) store in
    HasMachine (remote "rm-2" false) r store' × KeepsReserved store store'
reserve_is_fair_example = reserve_is_fair no_failures (remote "rm-2" false) store (refl, (refl, tt))

return_gives_back_example :
    let (r, store') = return_machine_to_pool no_failures (remote "rm-1" true) store in
    IsGivenBack no_failures (remote "rm-1" true) store r store'
return_gives_back_example =
    return_gives_back no_failures (remote "rm-1" true) store (λ e. cc) (refl, (refl, tt))

abbrev owner : OwnerMachine
owner = record {
  deleting = true;
  has_data_secret = true;
  config_kind = "K0sWorkerConfig";
  labels = [];
  annotations = [];
}

abbrev inputs : Inputs
inputs = record {
  get_error = none;
  ensure_finalizer = ok false;
  owner = ok (some owner);
  cluster = ok (some (record { paused = false; infrastructure_ready = true }));
  data_error = none;
  parse_error = none;
  ssh_key_error = none;
  provision = λ rm. none;
  patch_machine_error = λ m. none;
  decimal_port = λ rm. "22";
  pool_api = no_failures;
}

abbrev state : State
state = record { remote = remote "rm-1" true; finalizer = true; pool = store; cleaned = none }

abbrev summary : RemoteMachineStatus → Result Error Condition
summary s = ok (record {
  kind = "Ready";
  status = condition_true;
  reason = "";
  message = "";
  last_transition = 0;
})

reconcile-IsLast_example : IsLast upstream inputs state (reconcile upstream inputs summary state)
reconcile-IsLast_example = reconcile-IsLast upstream inputs summary state

failure_is_the_error_example :
    let (r, s') = reconcile_ready upstream inputs summary owner state in
    s'.remote.status.deprecated ≡ failure_of upstream (error_of r)
failure_is_the_error_example = failure_is_the_error upstream inputs summary owner state
