-- ===== src/Examples/Nodes.antt =====
-- Nodes that are listed in two pages.
use k0smotron.Prelude.{
  String, [], ◌∷◌, Bool, ◌==◌, Option, none, some, ◌≡◌, refl, if◌then◌else◌, arith,
}
use k0smotron.Kube.{ApiError, Error, fault, Result, ok, err, CtrlResult}
use k0smotron.ProviderId.{Node, WorkerMachine, NodeList, node_for_machine, reconcile_provider_id}
use k0smotron.ProviderId.Paging.{first, concerns, meaning, all_items, node_for_machine-first}
use k0smotron.ProviderId.Assignment.{IsAssigned, reconcile_provider_id-IsAssigned}

abbrev node_of : String → Node
node_of name = record {
  name = name;
  provider_id = "";
  labels = some (("kubernetes.io/os", "linux") ∷ []);
  addresses = "127.0.0.1" ∷ [];
}

abbrev first_page : NodeList
first_page = record { items = node_of "other" ∷ []; next = "more" }

abbrev last_page : NodeList
last_page = record { items = node_of "worker-1" ∷ []; next = "" }

abbrev served : String → Result Error NodeList
served token =
    if token == "" then ok first_page else if token == "more" then ok last_page else err fault

abbrev is_loopback : String → Bool
is_loopback a = a == "127.0.0.1"

abbrev machine : WorkerMachine
machine = record {
  name = "worker-1";
  provider_id = "remote-machine://10.0.0.2:22";
  labels = [];
  addresses = "127.0.0.1" ∷ [];
  config_kind = "K0sWorkerConfig";
  infrastructure_kind = "RemoteMachine";
}

node_for_machine-first_example :
    node_for_machine is_loopback served machine 2 ""
    ≡ some (
        ok (
          meaning is_loopback served machine (
            first is_loopback served
              (concerns is_loopback served machine)
              (all_items is_loopback served first_page (last_page ∷ [])))))
node_for_machine-first_example =
    node_for_machine-first is_loopback served machine first_page (last_page ∷ []) "" 2
      (refl, (λ e. cc), (refl, refl)) (omega arith)

abbrev accept : Node → Option ApiError
accept n = none

reconcile_provider_id-IsAssigned_example :
    (r : Result Error CtrlResult × Option Node) × (reconcile_provider_id is_loopback served accept 2
        none none
        (ok machine)
      ≡ some r)
    × IsAssigned is_loopback served machine accept
        (first is_loopback served
          (concerns is_loopback served machine)
          (all_items is_loopback served first_page (last_page ∷ [])))
        r
reconcile_provider_id-IsAssigned_example =
    reconcile_provider_id-IsAssigned is_loopback served machine accept first_page (last_page ∷ []) 2
      (λ e. cc) (refl, (λ e. cc), (refl, refl)) (omega arith)
