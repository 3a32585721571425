-- ===== src/RemoteMachine/Pool/Reserve.antt =====
-- Who holds which machine of a pool.
use k0smotron.Prelude.{
  List, true, false, ◌==◌, eq_iff, ==_self, Option, none, some, ◌≡◌, refl, sym, ap, ◌∙◌, false≢true,
  arith, Bool-cases, inl, inr,
}
use k0smotron.Kube.{ApiError, Error, Result, ok, err}
use k0smotron.RemoteMachine.{RemoteMachine, PooledRemoteMachine}
use k0smotron.RemoteMachine.Pool.{
  PoolApi, get, put, same_key, scan, is_own, reserved_for, reserve_free, reserve_found, listed,
  reserve_listed, reserve,
}
use k0smotron.RemoteMachine.Pool.Store.{
  IsKeyed, get-same, get-put, sort_by_name-All, keep-All, IsFound, IsFree, scan-finds,
}

-- The machine is there, in the namespace.
abbrev IsThere : List PooledRemoteMachine → RemoteMachine → PooledRemoteMachine → Type 0
IsThere store rm p = (get p store ≡ some p) × ((p.namespace == rm.namespace) ≡ true)

-- What a RemoteMachine has after a success: a machine of its pool and namespace that is reserved in
-- its name, whose address and credentials are its own now.
abbrev pub HasMachine :
    RemoteMachine → Result Error RemoteMachine → List PooledRemoteMachine → Type 0
HasMachine rm (ok rm') store =
    (p : PooledRemoteMachine) × (get p store ≡ some p)
    × (is_own rm p ≡ true)
    × (p.pool ≡ rm.spec.pool)
    × (p.namespace ≡ rm.namespace)
    × (rm'.spec.machine ≡ p.machine)
HasMachine rm (err e) store = Unit

-- Every machine that was reserved is there as it was.
abbrev pub KeepsReserved : List PooledRemoteMachine → List PooledRemoteMachine → Type 0
KeepsReserved store store' =
    (q : PooledRemoteMachine) → get q store ≡ some q → q.reserved ≡ true → get q store' ≡ some q

-- A change of a machine that was free.
put-KeepsReserved :
    (store : List PooledRemoteMachine) (p p' : PooledRemoteMachine)
    → get p store ≡ some p
    → p.reserved ≡ false
    → same_key p' p ≡ true
    → KeepsReserved store (put p' store)
put-KeepsReserved store p p' there free key q q_there reserved = elim (Bool-cases (same_key p' q)) [
  | inl e ↦
      let pq : same_key p q ≡ true = ground (
        arith,
        e,
        key,
        eq_iff p'.name p.name,
        eq_iff p'.namespace p.namespace,
        eq_iff p'.name q.name,
        eq_iff p'.namespace q.namespace,
        eq_iff p.name q.name,
        eq_iff p.namespace q.namespace,
      ) in
      let same : some p ≡ some q = sym there ∙ get-same p q store pq ∙ q_there in
      let pq' : p ≡ q = cc in absurd (false≢true (sym free ∙ ap (λ z. z.reserved) pq' ∙ reserved))
  | inr e ↦ get-put p' q store ∙ rw e q_there
]

module _ (k : PoolApi) (rm : RemoteMachine) (store : List PooledRemoteMachine) where
  IsFair : Result Error RemoteMachine × List PooledRemoteMachine → Type 0
  IsFair r = HasMachine rm r.0 r.1 × KeepsReserved store r.1

  same_key_self : (p : PooledRemoteMachine) → same_key (reserved_for rm p) p ≡ true
  same_key_self p = ground (arith, ==_self p.name, ==_self p.namespace)

  updated_there :
      (p : PooledRemoteMachine)
      → get p store ≡ some p
      → get (reserved_for rm p) (put (reserved_for rm p) store) ≡ some (reserved_for rm p)
  updated_there p there =
      get-put (reserved_for rm p) (reserved_for rm p) store
      ∙ ground (
        arith,
        ==_self p.name,
        ==_self p.namespace,
        get-same (reserved_for rm p) p store (same_key_self p) ∙ there,
      )

  reserve_free-IsFair :
      (p : PooledRemoteMachine) (a : Option ApiError)
      → IsThere store rm p
      → p.pool ≡ rm.spec.pool
      → p.reserved ≡ false
      → IsFair (reserve_free k rm p store a)
  unfolding reserve_free IsFair
  reserve_free-IsFair p (some a) there pool free = (tt, λ q h r. h)
  reserve_free-IsFair p none there pool free = (
    (
      reserved_for rm p,
      updated_there p there.0,
      ground (arith, ==_self rm.name),
      pool,
      (eq_iff p.namespace rm.namespace).0 there.1,
      refl,
    ),
    put-KeepsReserved store p (reserved_for rm p) there.0 free (same_key_self p),
  )

  reserve_found-IsFair :
      (f : Option PooledRemoteMachine × Option PooledRemoteMachine)
      → IsFound (IsThere store rm) rm f.0
      → IsFree (IsThere store rm) rm f.1
      → IsFair (reserve_found k rm store f)
  unfolding reserve_found IsFair
  reserve_found-IsFair (some p, free) (there, pool, own) hf =
      ((p, there.0, own, pool, (eq_iff p.namespace rm.namespace).0 there.1, refl), λ q h r. h)
  reserve_found-IsFair (none, none) h hf = (tt, λ q h r. h)
  reserve_found-IsFair (none, some p) h (there, pool, free) =
      reserve_free-IsFair p (k.update_error store (reserved_for rm p)) there pool free

  reserve_listed-IsFair :
      IsKeyed store → (a : Option ApiError) → IsFair (reserve_listed k rm store a)
  unfolding reserve_listed IsFair
  reserve_listed-IsFair keyed (some a) = (tt, λ q h r. h)
  reserve_listed-IsFair keyed none =
      let good =
        scan-finds (IsThere store rm) rm (listed k rm store) none
          (sort_by_name-All (IsThere store rm) _
            (keep-All (λ p. get p store ≡ some p) (λ p. p.namespace == rm.namespace) store keyed))
          tt in
      reserve_found-IsFair (scan rm (listed k rm store) none) good.0 good.1

  -- If no two machines of the store have the same name and namespace, a reservation leaves every
  -- machine that was reserved as it was; and when it succeeds, a machine of the RemoteMachine's pool
  -- and namespace is reserved in its name, and the RemoteMachine has that machine's address and
  -- credentials.
  pub reserve_is_fair :
      IsKeyed store
      → let (r, store') = reserve k rm store in HasMachine rm r store' × KeepsReserved store store'
  unfolding reserve IsFair
  reserve_is_fair keyed = reserve_listed-IsFair keyed (k.list_error store)

-- A reservation does not touch the deletion timestamp.
abbrev pub KeepsDeleting : RemoteMachine → Result Error RemoteMachine → Type 0
KeepsDeleting rm (ok rm') = rm'.deleting ≡ rm.deleting
KeepsDeleting rm (err e) = Unit

module _ (k : PoolApi) (rm : RemoteMachine) (store : List PooledRemoteMachine) where
  free-KeepsDeleting :
      (p : PooledRemoteMachine) (a : Option ApiError)
      → KeepsDeleting rm (reserve_free k rm p store a).0
  unfolding reserve_free
  free-KeepsDeleting p (some a) = tt
  free-KeepsDeleting p none = refl

  found-KeepsDeleting :
      (f : Option PooledRemoteMachine × Option PooledRemoteMachine)
      → KeepsDeleting rm (reserve_found k rm store f).0
  unfolding reserve_found
  found-KeepsDeleting (some p, free) = refl
  found-KeepsDeleting (none, none) = tt
  found-KeepsDeleting (none, some p) = free-KeepsDeleting p _

  listed-KeepsDeleting : (a : Option ApiError) → KeepsDeleting rm (reserve_listed k rm store a).0
  unfolding reserve_listed
  listed-KeepsDeleting (some a) = tt
  listed-KeepsDeleting none = found-KeepsDeleting (scan rm (listed k rm store) none)

  pub reserve-KeepsDeleting : KeepsDeleting rm (reserve k rm store).0
  unfolding reserve
  reserve-KeepsDeleting = listed-KeepsDeleting (k.list_error store)
