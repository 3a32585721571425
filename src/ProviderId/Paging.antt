-- ===== src/ProviderId/Paging.antt =====
-- The search for the node, page by page.
use k0smotron.Prelude.{
  ℕ, zero, suc, ◌<◌, String, List, [], ◌∷◌, ◌++◌, length, Bool, false, ◌||◌, ◌==◌, eq_iff, Option,
  none, some, ◌≡◌, ◌≢◌, refl, if◌then◌else◌, arith, Bool-cases, inl, inr, Option-cases,
}
use k0smotron.Kube.{Error, Result, ok}
use k0smotron.ProviderId.{
  Node, WorkerMachine, NodeList, Lookup, unknown, already_set, found, is_node_of, scan_items,
  after_scan, after_list, node_for_machine,
}

is_more : (token : String) → token ≢ "" → (token == "") ≡ false
is_more token h = elim (Bool-cases (token == "")) [
  | inl e ↦ absurd (h ((eq_iff token "").0 e))
  | inr e ↦ e
]

module _ (is_loopback : String → Bool) (list : String → Result Error NodeList) where
  -- The server answers a token with a page, and the page's token with the next one, up to the last,
  -- which has no token.
  abbrev pub IsServed : String → NodeList → List NodeList → Type 0
  IsServed token p [] = (list token ≡ ok p) × (p.next ≡ "")
  IsServed token p (q ∷ qs) = (list token ≡ ok p) × (p.next ≢ "") × IsServed p.next q qs

  abbrev pub all_items : NodeList → List NodeList → List Node
  all_items p [] = p.items
  all_items p (q ∷ qs) = p.items ++ all_items q qs

  -- The first node that a test picks.
  abbrev pub first : (Node → Bool) → List Node → Option Node
  first t [] = none
  first t (n ∷ ns) = let rest = first t ns in if t n then some n else rest

  -- What the first node that has the provider ID or belongs to the machine means.
  abbrev pub meaning : WorkerMachine → Option Node → Lookup
  meaning m none = unknown
  meaning m (some n) = if n.provider_id == m.provider_id then already_set else found n

  abbrev pub concerns : WorkerMachine → Node → Bool
  concerns m n = n.provider_id == m.provider_id || is_node_of is_loopback list m n

  scan_first : WorkerMachine → Option Node → Option Lookup
  scan_first m none = none
  scan_first m (some n) = some (meaning m (some n))

  scan_items-first :
      (m : WorkerMachine) (ns : List Node)
      → scan_items is_loopback list m ns ≡ scan_first m (first (concerns m) ns)
  unfolding scan_items scan_first
  scan_items-first m [] = refl
  scan_items-first m (n ∷ ns) = elim (Bool-cases (n.provider_id == m.provider_id)) [
    | inl e ↦ rw e (rw e refl)
    | inr e ↦ elim (Bool-cases (is_node_of is_loopback list m n)) [
      | inl f ↦ rw (e, f) (rw e refl)
      | inr f ↦ rw (e, f) (scan_items-first m ns)
    ]
  ]

  first-append :
      (t : Node → Bool) (ns ms : List Node)
      → first t (ns ++ ms) ≡ elim (first t ns) [ none ↦ first t ms | some n ↦ some n ]
  first-append t [] ms = refl
  first-append t (n ∷ ns) ms = elim (Bool-cases (t n)) [
    | inl e ↦ rw e refl
    | inr e ↦ rw e (first-append t ns ms)
  ]

  -- If the server serves the nodes in pages, of which there are at most as many as requests, the
  -- search ends, and it finds what the first node of all the pages means that has the provider ID
  -- or belongs to the machine.
  pub node_for_machine-first :
      (m : WorkerMachine) (p : NodeList) (ps : List NodeList) (token : String) (n : ℕ)
      → IsServed token p ps
      → length ps < n
      → node_for_machine is_loopback list m n token
        ≡ some (ok (meaning m (first (concerns m) (all_items p ps))))
  unfolding node_for_machine after_list after_scan scan_first
  node_for_machine-first m p ps token zero served h = absurd (omega (arith, h))
  node_for_machine-first m p [] token (suc n) served h =
      elim (Option-cases (first (concerns m) p.items)) [
        | inl e ↦ rw (served.0, scan_items-first m p.items, e) (rw served.1 refl)
        | inr (x, e) ↦ rw (served.0, scan_items-first m p.items, e) refl
      ]
  node_for_machine-first m p (q ∷ qs) token (suc n) served h =
      elim (Option-cases (first (concerns m) p.items)) [
        | inl e ↦
            rw
              (
                served.0,
                scan_items-first m p.items,
                first-append (concerns m) p.items (all_items q qs),
                e,
              )
              (rw (is_more p.next served.1)
                (node_for_machine-first m q qs p.next n served.2 (omega (arith, h))))
        | inr (x, e) ↦
            rw
              (
                served.0,
                scan_items-first m p.items,
                first-append (concerns m) p.items (all_items q qs),
                e,
              )
              refl
      ]
