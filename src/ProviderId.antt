-- ===== src/ProviderId.antt =====
-- The provider ID of a machine on its node: internal/controller/bootstrap/providerid_controller.go.
-- The labels of a node are nil if it has none, and writing to them panics then.
pub mod Paging
pub mod Assignment
use k0smotron.Prelude.{
  ℕ, zero, suc, String, List, [], ◌∷◌, Bool, true, false, not, ◌&&◌, ◌||◌, ◌==◌, Option, none, some,
  any, if◌then◌else◌, StringMap, lookup, insert, unwrap_or,
}
use k0smotron.Kube.{
  ApiError, not_found, refused, Error, api, wrap, fault, Result, ok, err, CtrlResult, zero_result,
}

abbrev pub machine_name_node_label : String
machine_name_node_label = "k0smotron.io/machine-name"

-- What is read of a Node, and of a Machine.
pub record Node : Type 0 where
  pub name : String
  pub provider_id : String
  pub labels : Option StringMap
  pub addresses : List String

pub record WorkerMachine : Type 0 where
  pub name : String
  pub provider_id : String
  pub labels : StringMap
  pub addresses : List String
  pub config_kind : String
  pub infrastructure_kind : String

-- One answer to the request for nodes; `next` is the token for the next one.
pub record NodeList : Type 0 where
  pub items : List Node
  pub next : String

-- The node and the flag that nodeForMachine returns.
pub data Lookup : Type 0 where
  unknown already_set : Lookup
  found : Node → Lookup

-- ctrl.Result{RequeueAfter: time.Second * 10}, and with Requeue
abbrev pub in_ten_seconds : CtrlResult
in_ten_seconds = record { requeue = false; requeue_after = 10000000000 }

abbrev pub wait_for_node : CtrlResult
wait_for_node = record { requeue = true; requeue_after = 10000000000 }

unfoldable pub process_if_resource_belongs_to_k0s_worker_node : WorkerMachine → Bool
process_if_resource_belongs_to_k0s_worker_node m =
    if not (m.config_kind == "K0sControllerConfig")
      && (not (m.config_kind == "K0sWorkerConfig")
          && not (m.infrastructure_kind == "RemoteMachine"))
    then false
    else if m.config_kind == "K0sControllerConfig"
        && not
            (unwrap_or (lookup "k0smotron.io/control-plane-worker-enabled" m.labels) "" == "true")
    then false
    else true

-- `is_loopback` is IsLoopback of net.ParseIP; `list` is the request for the nodes behind a token.
module _ (is_loopback : String → Bool) (list : String → Result Error NodeList) where
  -- A label that is missing is no label that is empty.
  abbrev has_name : String → Option String → Bool
  has_name name none = false
  has_name name (some label) = label == name

  abbrev shares_address : WorkerMachine → Node → Bool
  shares_address m n = any (λ a. any (λ b. a == b && not (is_loopback b)) n.addresses) m.addresses

  abbrev pub is_node_of : WorkerMachine → Node → Bool
  is_node_of m n =
      n.name == m.name
      || (has_name m.name (lookup machine_name_node_label (unwrap_or n.labels []))
          || shares_address m n)

  -- The loop over one answer.
  unfoldable pub scan_items : WorkerMachine → List Node → Option Lookup
  scan_items m [] = none
  scan_items m (n ∷ ns) =
      let rest = scan_items m ns in
      if n.provider_id == m.provider_id
      then some already_set
      else if is_node_of m n
      then some (found n)
      else rest

  after_scan :
      Option Lookup
      → NodeList
      → (String → Option (Result Error Lookup))
      → Option (Result Error Lookup)
  after_scan (some l) p more = some (ok l)
  after_scan none p more = if p.next == "" then some (ok unknown) else more p.next

  after_list :
      WorkerMachine
      → Result Error NodeList
      → (String → Option (Result Error Lookup))
      → Option (Result Error Lookup)
  unfolding after_scan scan_items
  after_list m (err e) more = some (err e)
  after_list m (ok p) more = after_scan (scan_items m p.items) p more

  -- The endless loop, with at most as many requests as the number; `none` if they are used up.
  unfoldable pub node_for_machine : WorkerMachine → ℕ → String → Option (Result Error Lookup)
  unfolding after_list
  node_for_machine m zero token = none
  node_for_machine m (suc n) token = after_list m (list token) (node_for_machine m n)

  -- The node with the provider ID and the name of the machine, for labels that are there.
  abbrev pub with_provider_id : WorkerMachine → Node → StringMap → Node
  with_provider_id m n labels = record n {
    provider_id = m.provider_id;
    labels = some (insert machine_name_node_label m.name labels);
  }

  -- The result, and the node that is sent; `update` is the last error of retry.OnError.
  after_update : Node → Option ApiError → Result Error CtrlResult × Option Node
  after_update n none = (ok zero_result, some n)
  after_update n (some a) = (err (wrap ("failed to update node" ∷ n.name ∷ []) (api a)), some n)

  assign :
      WorkerMachine
      → (Node → Option ApiError)
      → Node
      → Option StringMap
      → Result Error CtrlResult × Option Node
  unfolding after_update
  assign m update n none = (err fault, none)
  assign m update n (some labels) =
      after_update (with_provider_id m n labels) (update (with_provider_id m n labels))

  by_lookup :
      WorkerMachine
      → (Node → Option ApiError)
      → Result Error Lookup
      → Result Error CtrlResult × Option Node
  unfolding assign
  by_lookup m update (err e) = (err (wrap ("failed to list nodes in cluster" ∷ []) e), none)
  by_lookup m update (ok already_set) = (ok zero_result, none)
  by_lookup m update (ok unknown) = (ok wait_for_node, none)
  by_lookup m update (ok (found n)) =
      if n.provider_id == "" then assign m update n n.labels else (ok zero_result, none)

  by_search :
      WorkerMachine
      → (Node → Option ApiError)
      → Option (Result Error Lookup)
      → Option (Result Error CtrlResult × Option Node)
  unfolding by_lookup
  by_search m update none = none
  by_search m update (some r) = some (by_lookup m update r)

  with_clients :
      WorkerMachine
      → (Node → Option ApiError)
      → ℕ
      → Option Error
      → Option Error
      → Option (Result Error CtrlResult × Option Node)
  unfolding by_search node_for_machine
  with_clients m update fuel (some e) client = some (err (wrap ("can't get cluster" ∷ []) e), none)
  with_clients m update fuel none (some e) =
      some (err (wrap ("can't get kube client for cluster" ∷ []) e), none)
  with_clients m update fuel none none = by_search m update (node_for_machine m fuel "")

  -- `cluster` and `client` are the errors of the two look-ups.
  unfoldable pub reconcile_provider_id :
      (Node → Option ApiError)
      → ℕ
      → Option Error
      → Option Error
      → Result ApiError WorkerMachine
      → Option (Result Error CtrlResult × Option Node)
  unfolding with_clients
  reconcile_provider_id update fuel cluster client (err not_found) = some (ok zero_result, none)
  reconcile_provider_id update fuel cluster client (err (refused t)) =
      some (err (api (refused t)), none)
  reconcile_provider_id update fuel cluster client (ok m) =
      if m.provider_id == ""
      then some (ok in_ten_seconds, none)
      else with_clients m update fuel cluster client
