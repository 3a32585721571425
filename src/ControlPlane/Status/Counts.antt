-- ===== src/ControlPlane/Status/Counts.antt =====
-- What the counts of the status say.
use k0smotron.Prelude.{
  ℕ, ◌+◌, ◌≤◌, String, List, [], ◌∷◌, some, ◌≡◌, refl, length, count-le-length, arith,
}
use k0smotron.Kube.{Upstream, VersionLib, Result, ok, err, Error}
use k0smotron.ControlPlane.Scope.{World}
use k0smotron.ControlPlane.Status.{
  append, set_counts, set_version, set_scaling_conditions, finish_status, compute_replicas,
}

length-append_names : (xs ys : List String) → length (append xs ys) ≡ length xs + length ys
unfolding append
length-append_names [] ys = omega arith
length-append_names (x ∷ xs) ys = omega (arith, length-append_names xs ys)

-- The status has the given number of replicas, and of no kind of replica more.
abbrev pub HasCounts : ℕ → World → Type 0
HasCounts n w =
    let status = w.scope.kcp.status in
    (status.replicas ≡ some n)
    × ((r : ℕ) × (status.ready_replicas ≡ some r) × (r ≤ n))
    × ((a : ℕ) × (status.available_replicas ≡ some a) × (a ≤ n))
    × ((t : ℕ) × (status.up_to_date_replicas ≡ some t) × (t ≤ n))

module _ (u : Upstream) (v : VersionLib) where
  set_counts-HasCounts :
      (w : World)
      → HasCounts
          (length (append w.scope.active_machines w.scope.deleted_machines))
          (set_counts u v w)
  unfolding set_counts
  set_counts-HasCounts w = (
    refl,
    (_, refl, count-le-length _ _),
    (_, refl, count-le-length _ _),
    (_, refl, count-le-length _ _),
  )

  finish_status-HasCounts :
      (r : Result Error String) (n : ℕ) (w : World)
      → HasCounts n w
      → HasCounts n (finish_status u v r w).1
  unfolding finish_status set_version set_scaling_conditions
  finish_status-HasCounts (ok s) n w h = h
  finish_status-HasCounts (err e) n w h = h

  -- Whether the versions of the machines parse or not, the status counts every machine, those being
  -- deleted included, and no more ready, available or up to date ones than that.
  pub compute_replicas-HasCounts :
      (w : World)
      → HasCounts
          (length w.scope.active_machines + length w.scope.deleted_machines)
          (compute_replicas u v w).1
  unfolding compute_replicas
  compute_replicas-HasCounts w =
      rw⁻¹ (length-append_names w.scope.active_machines w.scope.deleted_machines)
        (finish_status-HasCounts _ _ (set_counts u v w) (set_counts-HasCounts w))
