-- ===== src/RemoteMachine/Reconcile/Finalizer.antt =====
-- When a RemoteMachine may go, and what its status tells.
use k0smotron.Prelude.{
  List, Bool, true, false, not, ◌&&◌, ◌==◌, eq_iff, Option, none, some, is_some, ◌≡◌, ◌≢◌, ◌⊎◌, inl,
  inr, refl, sym, ◌∙◌, if◌then◌else◌, arith,
}
use k0smotron.Kube.{
  Upstream, ApiError, not_found, refused, Error, Result, ok, err, error_of, Condition, zero_result,
}
use k0smotron.RemoteMachine.{RemoteMachine, RemoteMachineStatus, PooledRemoteMachine}
use k0smotron.RemoteMachine.Pool.{reserve, return_machine_to_pool}
use k0smotron.RemoteMachine.Pool.Reserve.{KeepsDeleting, reserve-KeepsDeleting}
use k0smotron.RemoteMachine.Report.{failure_of, update_status-failure}
use k0smotron.RemoteMachine.Inputs.{OwnerMachine, ClusterState, Inputs, State}
use k0smotron.RemoteMachine.Reconcile.{
  Step, mode_of, after_provision, provision_if_needed, finish_deletion, delete_if_finalizer,
  with_provisioner, after_reservation, with_pool, after_parsing, with_data, reported,
  reconcile_ready, by_cluster, by_owner, by_finalizer, by_get, reconcile,
}

-- Whatever was in the status before or was set on the way, after a reconciliation that comes as far
-- as the bootstrap data it tells of a failure exactly when an error is returned, and then of that
-- error: the failure for missing fields, which comes without an error, is lost.
pub failure_is_the_error :
    (u : Upstream) (i : Inputs) (summary : RemoteMachineStatus → Result Error Condition)
    (m : OwnerMachine) (s : State)
    → let (r, s') = reconcile_ready u i summary m s in
      s'.remote.status.deprecated ≡ failure_of u (error_of r)
unfolding reconcile_ready reported
failure_is_the_error u i summary m s = update_status-failure u summary _ _

module _ (u : Upstream) (i : Inputs) where
  -- The finalizer stays, or the RemoteMachine is being deleted, was cleaned up, and its pooled
  -- machine, if it is from a pool, was given back.
  abbrev pub IsLast : State → Step → Type 0
  IsLast s p =
      (s.finalizer ≡ true → p.1.finalizer ≡ true)
      ⊎ ((s.remote.deleting ≡ true)
          × (is_some p.1.cleaned ≡ true)
          × (p.0 ≡ ok zero_result)
          × (s.remote.spec.pool ≢ ""
              → (return_machine_to_pool i.pool_api s.remote s.pool).0 ≡ ok tt))

  if-IsLast :
      (s : State) (b : Bool) (p q : Step)
      → (b ≡ true → IsLast s p)
      → (b ≡ false → IsLast s q)
      → IsLast s (if b then p else q)
  if-IsLast s true p q h k = h refl
  if-IsLast s false p q h k = k refl

  after_provision-finalizer :
      (m : OwnerMachine) (s : State) (e : Option Error)
      → (after_provision u i m s e).1.finalizer ≡ s.finalizer
  unfolding after_provision
  after_provision-finalizer m s (some e) = refl
  after_provision-finalizer m s none = refl

  provision-finalizer :
      (m : OwnerMachine) (s : State) → (provision_if_needed u i m s).1.finalizer ≡ s.finalizer
  unfolding provision_if_needed
  provision-finalizer m s = ground (arith, after_provision-finalizer m s (i.provision s.remote))

  finish_deletion-IsLast :
      (s : State) (s' : State) (r : Result Error Unit × List PooledRemoteMachine)
      → s.remote.deleting ≡ true
      → is_some s'.cleaned ≡ true
      → s'.finalizer ≡ s.finalizer
      → (s.remote.spec.pool ≢ "" → r.0 ≡ (return_machine_to_pool i.pool_api s.remote s.pool).0)
      → IsLast s (finish_deletion u i s' r)
  unfolding finish_deletion
  finish_deletion-IsLast s s' (err e, pool) d c f same = inl (λ h. f ∙ h)
  finish_deletion-IsLast s s' (ok t, pool) d c f same =
      inr (d, c, refl, λ pooled. sym (same pooled))

  delete-IsLast :
      (m : OwnerMachine) (s : State)
      → s.remote.deleting ≡ true
      → IsLast s (delete_if_finalizer u i m s)
  unfolding delete_if_finalizer
  delete-IsLast m s d =
      let s' = record s { cleaned = some (mode_of m.config_kind) } in
      if-IsLast s (not s.finalizer) _ _ (λ _. inl (λ h. h))
        λ _.
          if-IsLast s (not (s.remote.spec.pool == "")) _ _
            (λ _.
              finish_deletion-IsLast s s' (return_machine_to_pool i.pool_api s.remote s.pool) d refl
                refl (λ pooled. refl))
            (λ e.
              finish_deletion-IsLast s s' (ok tt, s.pool) d refl refl
                (λ pooled. absurd (pooled ((eq_iff s.remote.spec.pool "").0 (ground (arith, e))))))

  with_provisioner-IsLast : (m : OwnerMachine) (s : State) → IsLast s (with_provisioner u i m s)
  unfolding with_provisioner
  with_provisioner-IsLast m s =
      if-IsLast s (not s.remote.spec.has_provision_job && is_some i.ssh_key_error) _ _
        (λ _. inl (λ h. h))
        λ _.
          if-IsLast s s.remote.deleting _ _ (λ d. delete-IsLast m s d)
            (λ _. inl (λ h. provision-finalizer m s ∙ h))

  -- A RemoteMachine that is not being deleted keeps its finalizer.
  alive-keeps :
      (m : OwnerMachine) (s : State)
      → s.remote.deleting ≡ false
      → (with_provisioner u i m s).1.finalizer ≡ s.finalizer
  unfolding with_provisioner
  alive-keeps m s alive = rw alive (ground (arith, provision-finalizer m s))

  reserved-IsLast :
      (m : OwnerMachine) (s : State) (r : Result Error RemoteMachine × List PooledRemoteMachine)
      → s.remote.deleting ≡ false
      → KeepsDeleting s.remote r.0
      → IsLast s (after_reservation u i m s r)
  unfolding after_reservation
  reserved-IsLast m s (err e, pool) alive same = inl (λ h. h)
  reserved-IsLast m s (ok rm, pool) alive same =
      inl (λ h. alive-keeps m (record s { pool = pool; remote = rm }) (same ∙ alive) ∙ h)

  with_pool-IsLast : (m : OwnerMachine) (s : State) → IsLast s (with_pool u i m s)
  unfolding with_pool
  with_pool-IsLast m s =
      if-IsLast s (not (s.remote.spec.pool == "") && not s.remote.deleting) _ _
        (λ e.
          reserved-IsLast m s (reserve i.pool_api s.remote s.pool) (ground (arith, e))
            (reserve-KeepsDeleting i.pool_api s.remote s.pool))
        (λ _. with_provisioner-IsLast m s)

  after_parsing-IsLast :
      (m : OwnerMachine) (s : State) (e : Option Error) → IsLast s (after_parsing u i m s e)
  unfolding after_parsing
  after_parsing-IsLast m s none = with_pool-IsLast m s
  after_parsing-IsLast m s (some e) = inl (λ h. h)

  with_data-IsLast :
      (m : OwnerMachine) (s : State) (e : Option ApiError) → IsLast s (with_data u i m s e)
  unfolding with_data
  with_data-IsLast m s none = after_parsing-IsLast m s i.parse_error
  with_data-IsLast m s (some not_found) =
      if-IsLast s m.deleting _ _ (λ _. after_parsing-IsLast m s i.parse_error) (λ _. inl (λ h. h))
  with_data-IsLast m s (some (refused t)) = inl (λ h. h)

  module _ (summary : RemoteMachineStatus → Result Error Condition) where
    -- The deferred function leaves the finalizer and the result alone.
    reported-IsLast : (s : State) (p : Step) → IsLast s p → IsLast s (reported u i summary p)
    unfolding reported
    reported-IsLast s p h = h

    ready-IsLast : (m : OwnerMachine) (s : State) → IsLast s (reconcile_ready u i summary m s)
    unfolding reconcile_ready
    ready-IsLast m s =
        reported-IsLast s (with_data u i m s i.data_error) (with_data-IsLast m s i.data_error)

    by_cluster-IsLast :
        (m : OwnerMachine) (s : State) (r : Result Error (Option ClusterState))
        → IsLast s (by_cluster u i summary m s r)
    unfolding by_cluster
    by_cluster-IsLast m s (err e) = inl (λ h. h)
    by_cluster-IsLast m s (ok none) = inl (λ h. h)
    by_cluster-IsLast m s (ok (some c)) =
        if-IsLast s c.paused _ _ (λ _. inl (λ h. h))
          λ _.
            if-IsLast s (not c.infrastructure_ready) _ _ (λ _. inl (λ h. h))
              λ _.
                if-IsLast s (not m.has_data_secret) _ _ (λ _. inl (λ h. h)) (λ _. ready-IsLast m s)

    by_owner-IsLast :
        (s : State) (r : Result Error (Option OwnerMachine)) → IsLast s (by_owner u i summary s r)
    unfolding by_owner
    by_owner-IsLast s (err e) = inl (λ h. h)
    by_owner-IsLast s (ok none) = inl (λ h. h)
    by_owner-IsLast s (ok (some m)) = by_cluster-IsLast m s i.cluster

    by_finalizer-IsLast :
        (s : State) (r : Result Error Bool) → IsLast s (by_finalizer u i summary s r)
    unfolding by_finalizer
    by_finalizer-IsLast s (err e) = inl (λ h. h)
    by_finalizer-IsLast s (ok true) = inl (λ h. refl)
    by_finalizer-IsLast s (ok false) = by_owner-IsLast s i.owner

    by_get-IsLast : (s : State) (e : Option ApiError) → IsLast s (by_get u i summary s e)
    unfolding by_get
    by_get-IsLast s none = by_finalizer-IsLast s i.ensure_finalizer
    by_get-IsLast s (some not_found) = inl (λ h. h)
    by_get-IsLast s (some (refused t)) = inl (λ h. h)

    -- A reconciliation keeps the finalizer of a RemoteMachine, unless the RemoteMachine is being
    -- deleted, its cleanup has been run, and its machine, if it is from a pool, was given back
    -- without an error.
    pub reconcile-IsLast : (s : State) → IsLast s (reconcile u i summary s)
    unfolding reconcile
    reconcile-IsLast s = by_get-IsLast s i.get_error
