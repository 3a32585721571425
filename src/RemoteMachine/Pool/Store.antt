-- ===== src/RemoteMachine/Pool/Store.antt =====
-- The list of PooledRemoteMachines as a map by name and namespace.
use k0smotron.Prelude.{
  List, [], ◌∷◌, Bool, true, false, not, ◌&&◌, ◌==◌, eq_iff, Option, none, some, is_some, ◌≡◌, refl,
  subst, keep, All, if◌then◌else◌, arith, Bool-cases, inl, inr,
}
use k0smotron.RemoteMachine.{RemoteMachine, PooledRemoteMachine}
use k0smotron.RemoteMachine.Pool.{
  get, put, same_key, insert_sorted, sort_by_name, is_less, scan, is_own,
}

-- An API server has one object under a key.
abbrev pub IsKeyed : List PooledRemoteMachine → Type 0
IsKeyed store = All (λ p. get p store ≡ some p) store

pub get-same :
    (p q : PooledRemoteMachine) (s : List PooledRemoteMachine)
    → same_key p q ≡ true
    → get p s ≡ get q s
get-same p q [] h = refl
get-same p q (x ∷ xs) h = ground (
  arith,
  h,
  get-same p q xs h,
  eq_iff p.name q.name,
  eq_iff p.namespace q.namespace,
  eq_iff x.name p.name,
  eq_iff x.name q.name,
  eq_iff x.namespace p.namespace,
  eq_iff x.namespace q.namespace,
)

pub get-put :
    (p q : PooledRemoteMachine) (s : List PooledRemoteMachine)
    → get q (put p s)
      ≡ (if same_key p q then (if is_some (get q s) then some p else none) else get q s)
get-put p q [] = ground arith
get-put p q (x ∷ xs) = ground (
  arith,
  get-put p q xs,
  eq_iff p.name q.name,
  eq_iff p.namespace q.namespace,
  eq_iff x.name p.name,
  eq_iff x.name q.name,
  eq_iff x.namespace p.namespace,
  eq_iff x.namespace q.namespace,
)

module _ (P : PooledRemoteMachine → Type 0) where
  insert_sorted-All :
      (p : PooledRemoteMachine) (ps : List PooledRemoteMachine)
      → P p
      → All P ps
      → All P (insert_sorted p ps)
  insert_sorted-All p [] h hs = (h, tt)
  insert_sorted-All p (q ∷ qs) h hs =
      let rest = insert_sorted-All p qs h hs.1 in
      elim (Bool-cases (is_less q.name p.name)) [ inl e ↦ rw e (hs.0, rest) | inr e ↦ rw e (h, hs) ]

  pub sort_by_name-All : (ps : List PooledRemoteMachine) → All P ps → All P (sort_by_name ps)
  sort_by_name-All [] hs = tt
  sort_by_name-All (p ∷ ps) hs =
      insert_sorted-All p (sort_by_name ps) hs.0 (sort_by_name-All ps hs.1)

  pub keep-All :
      (t : PooledRemoteMachine → Bool) (ps : List PooledRemoteMachine)
      → All P ps
      → All (λ p. P p × (t p ≡ true)) (keep t ps)
  keep-All t [] hs = tt
  keep-All t (p ∷ ps) hs =
      let rest = keep-All t ps hs.1 in
      elim (Bool-cases (t p)) [ inl e ↦ rw e ((hs.0, e), rest) | inr e ↦ rw e rest ]

  -- What the loop answers.
  abbrev pub IsFound : RemoteMachine → Option PooledRemoteMachine → Type 0
  IsFound rm none = Unit
  IsFound rm (some p) = P p × (p.pool ≡ rm.spec.pool) × (is_own rm p ≡ true)

  abbrev pub IsFree : RemoteMachine → Option PooledRemoteMachine → Type 0
  IsFree rm none = Unit
  IsFree rm (some p) = P p × (p.pool ≡ rm.spec.pool) × (p.reserved ≡ false)

  next-IsFree :
      (rm : RemoteMachine) (p : PooledRemoteMachine) (free : Option PooledRemoteMachine)
      → P p
      → IsFree rm free
      → IsFree rm (
          if p.pool == rm.spec.pool && (not p.reserved && not (is_some free)) then some p else free)
  next-IsFree rm p free h hf =
      elim (Bool-cases (p.pool == rm.spec.pool && (not p.reserved && not (is_some free)))) [
        | inl e ↦ rw e (h, (eq_iff p.pool rm.spec.pool).0 (ground (arith, e)), ground (arith, e))
        | inr e ↦ rw e hf
      ]

  pub scan-finds :
      (rm : RemoteMachine) (ps : List PooledRemoteMachine) (free : Option PooledRemoteMachine)
      → All P ps
      → IsFree rm free
      → IsFound rm (scan rm ps free).0 × IsFree rm (scan rm ps free).1
  scan-finds rm [] free hs hf = (tt, hf)
  scan-finds rm (p ∷ ps) free hs hf =
      let next =
        if p.pool == rm.spec.pool && (not p.reserved && not (is_some free)) then some p else free in
      let rest = scan-finds rm ps next hs.1 (next-IsFree rm p free hs.0 hf) in
      elim (Bool-cases (p.pool == rm.spec.pool && is_own rm p)) [
        | inl e ↦
            rw e ((hs.0, (eq_iff p.pool rm.spec.pool).0 (ground (arith, e)), ground (arith, e)), hf)
        | inr e ↦ rw e rest
      ]

pub get-All :
    (P : PooledRemoteMachine → Type 0) (p q : PooledRemoteMachine) (s : List PooledRemoteMachine)
    → All P s
    → get p s ≡ some q
    → P q
get-All P p q [] hs h = cc
get-All P p q (x ∷ xs) hs h = elim (Bool-cases (same_key x p)) [
  | inl e ↦ let found : some x ≡ some q = rw e at h in let xq : x ≡ q = cc in subst P xq hs.0
  | inr e ↦ let later : get p xs ≡ some q = rw e at h in get-All P p q xs hs.1 later
]
