-- ===== src/ProviderId/Assignment.antt =====
-- Which node a reconciliation gives the provider ID.
use k0smotron.Prelude.{
  [], ◌∷◌, lookup, lookup-insert, unwrap_or, if◌then◌else◌, ℕ, ◌<◌, String, List, length, Bool,
  ◌==◌, eq_iff, Option, none, some, ◌≡◌, ◌≢◌, ◌⊎◌, inl, inr, refl, sym, ◌∙◌, Bool-cases, StringMap,
}
use k0smotron.Kube.{ApiError, Error, api, wrap, fault, Result, ok, err, CtrlResult, zero_result}
use k0smotron.ProviderId.{
  Node, WorkerMachine, NodeList, wait_for_node, machine_name_node_label, with_provider_id,
  after_update, assign, by_lookup, by_search, with_clients, reconcile_provider_id,
}
use k0smotron.ProviderId.Paging.{
  IsServed, all_items, first, concerns, meaning, node_for_machine-first,
}

module _ (is_loopback : String → Bool) (list : String → Result Error NodeList) where
  -- A node with the provider ID and the name of the machine, and else with what it had.
  abbrev pub IsIdentified : WorkerMachine → Node → StringMap → Node → Type 0
  IsIdentified m n labels s =
      (s.provider_id ≡ m.provider_id)
      × (s.name ≡ n.name)
      × (s.addresses ≡ n.addresses)
      × ((key : String)
          → lookup key (unwrap_or s.labels [])
            ≡ (if machine_name_node_label == key then some m.name else lookup key labels))

  -- The result, by the answer to the update.
  abbrev pub IsReported : Node → Option ApiError → Result Error CtrlResult → Type 0
  IsReported n none r = r ≡ ok zero_result
  IsReported n (some a) r = r ≡ err (wrap ("failed to update node" ∷ n.name ∷ []) (api a))

  -- What is sent for a node without a provider ID, by its labels, and the result.
  abbrev pub IsSent :
      WorkerMachine
      → (Node → Option ApiError)
      → Node
      → Option StringMap
      → Result Error CtrlResult × Option Node
      → Type 0
  IsSent m update n none r = r ≡ (err fault, none)
  IsSent m update n (some labels) r =
      (s : Node) × (r.1 ≡ some s) × IsIdentified m n labels s × IsReported n (update s) r.0

  -- For the first node that concerns a machine, if there is one: the result and what is sent.
  abbrev pub IsAssigned :
      WorkerMachine
      → (Node → Option ApiError)
      → Option Node
      → Result Error CtrlResult × Option Node
      → Type 0
  IsAssigned m update none r = r ≡ (ok wait_for_node, none)
  IsAssigned m update (some n) r =
      ((n.provider_id ≢ "") × (r ≡ (ok zero_result, none)))
      ⊎ ((n.provider_id ≡ "") × IsSent m update n n.labels r)

  update-sent : (n : Node) (e : Option ApiError) → (after_update is_loopback list n e).1 ≡ some n
  unfolding after_update
  update-sent n none = refl
  update-sent n (some a) = refl

  update-IsReported :
      (n : Node) (e : Option ApiError) → IsReported n e (after_update is_loopback list n e).0
  unfolding after_update
  update-IsReported n none = refl
  update-IsReported n (some a) = refl

  assign-IsSent :
      (m : WorkerMachine) (update : Node → Option ApiError) (n : Node) (labels : Option StringMap)
      → IsSent m update n labels (assign is_loopback list m update n labels)
  unfolding assign
  assign-IsSent m update n none = refl
  assign-IsSent m update n (some labels) =
      let s = with_provider_id is_loopback list m n labels in
      (
        s,
        update-sent s (update s),
        (refl, refl, refl, λ key. lookup-insert machine_name_node_label key m.name labels),
        update-IsReported s (update s),
      )

  by_lookup-IsAssigned :
      (m : WorkerMachine) (update : Node → Option ApiError) (o : Option Node)
      → m.provider_id ≢ ""
      → IsAssigned m update o
          (by_lookup is_loopback list m update (ok (meaning is_loopback list m o)))
  unfolding by_lookup
  by_lookup-IsAssigned m update none has_id = refl
  by_lookup-IsAssigned m update (some n) has_id =
      elim (Bool-cases (n.provider_id == m.provider_id)) [
        | inl e ↦
            rw e
              (inl (λ blank. has_id (sym ((eq_iff n.provider_id m.provider_id).0 e) ∙ blank), refl))
        | inr e ↦ rw e (elim (Bool-cases (n.provider_id == "")) [
          | inl f ↦ rw f (inr ((eq_iff n.provider_id "").0 f, assign-IsSent m update n n.labels))
          | inr f ↦ rw f (inl (λ blank. cc (f, (eq_iff n.provider_id "").1 blank), refl))
        ])
      ]

  -- For a Machine with a provider ID, whose cluster and client are there, if the server serves the
  -- nodes in pages, of which there are at most as many as requests: the reconciliation comes to an
  -- end, which depends on the first node that has the provider ID or belongs to the machine. If that
  -- node has a provider ID, nothing is sent and the result is zero. If it has none, it is sent with
  -- the machine's provider ID and the machine's name as the one label that is set, the rest as it
  -- was, and the result is zero or the error of that update; but if its labels are nil, the
  -- reconciliation panics and nothing is sent. Without such a node it waits.
  pub reconcile_provider_id-IsAssigned :
      (m : WorkerMachine) (update : Node → Option ApiError) (p : NodeList) (ps : List NodeList)
      (n : ℕ)
      → m.provider_id ≢ ""
      → IsServed is_loopback list "" p ps
      → length ps < n
      → (r : Result Error CtrlResult × Option Node) × (reconcile_provider_id is_loopback list update
            n none none
            (ok m)
          ≡ some r)
        × IsAssigned m update
            (first is_loopback list (concerns is_loopback list m) (all_items is_loopback list p ps))
            r
  unfolding reconcile_provider_id with_clients by_search
  reconcile_provider_id-IsAssigned m update p ps n has_id served h =
      let o =
        first is_loopback list (concerns is_loopback list m) (all_items is_loopback list p ps) in
      let search_ends = node_for_machine-first is_loopback list m p ps "" n served h in
      (
        by_lookup is_loopback list m update (ok (meaning is_loopback list m o)),
        elim (Bool-cases (m.provider_id == "")) [
          | inl e ↦ absurd (has_id ((eq_iff m.provider_id "").0 e))
          | inr e ↦ rw (e, search_ends) refl
        ],
        by_lookup-IsAssigned m update o has_id,
      )
