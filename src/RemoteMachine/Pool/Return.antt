-- ===== src/RemoteMachine/Pool/Return.antt =====
-- What is given back to a pool.
use k0smotron.Prelude.{
  List, [], ◌∷◌, Bool, true, false, ◌==◌, eq_iff, ==_self, Option, none, some, ◌≡◌, ◌≢◌, ◌⊎◌, refl,
  sym, ap, ◌∙◌, subst, false≢true, All, if◌then◌else◌, arith, Bool-cases, inl, inr,
}
use k0smotron.Kube.{ApiError, Error, Result, ok}
use k0smotron.RemoteMachine.{RemoteMachine, PooledRemoteMachine}
use k0smotron.RemoteMachine.Pool.{
  PoolApi, get, put, same_key, is_held_by, freed, give_back, give_back_first, return_listed,
  return_machine_to_pool,
}
use k0smotron.RemoteMachine.Pool.Store.{IsKeyed, get-same, get-put, get-All}

module _ (k : PoolApi) (rm : RemoteMachine) (store : List PooledRemoteMachine) where
  abbrev IsHeld : PooledRemoteMachine → Type 0
  IsHeld p = (get p store ≡ some p) × (is_held_by k rm p ≡ true)

  -- Nothing is changed, and after a success nothing in the list is held; or one machine that is
  -- held is freed.
  IsReturn : List PooledRemoteMachine → Result Error Unit × List PooledRemoteMachine → Type 0
  IsReturn ps r =
      ((r.1 ≡ store) × (r.0 ≡ ok tt → All (λ p. is_held_by k rm p ≡ false) ps))
      ⊎ ((p : PooledRemoteMachine) × IsHeld p × (r.1 ≡ put (freed k p) store))

  give_back-IsReturn :
      (p : PooledRemoteMachine) (ps : List PooledRemoteMachine) (a : Option ApiError)
      → IsHeld p
      → IsReturn ps (give_back k p store a)
  unfolding give_back IsReturn
  give_back-IsReturn p ps (some a) h = inl (refl, λ e. cc)
  give_back-IsReturn p ps none h = inr (p, h, refl)

  one_more :
      (p : PooledRemoteMachine) (ps : List PooledRemoteMachine)
      (r : Result Error Unit × List PooledRemoteMachine)
      → is_held_by k rm p ≡ false
      → IsReturn ps r
      → IsReturn (p ∷ ps) r
  unfolding IsReturn
  one_more p ps r h (inl (same, none_held)) = inl (same, λ e. (h, none_held e))
  one_more p ps r h (inr freed_one) = inr freed_one

  by_first :
      (b : Bool) (ps : List PooledRemoteMachine)
      (r r' : Result Error Unit × List PooledRemoteMachine)
      → (b ≡ true → IsReturn ps r)
      → (b ≡ false → IsReturn ps r')
      → IsReturn ps (if b then r else r')
  by_first true ps r r' h h' = h refl
  by_first false ps r r' h h' = h' refl

  give_back_first-IsReturn :
      (ps : List PooledRemoteMachine)
      → All (λ p. get p store ≡ some p) ps
      → IsReturn ps (give_back_first k rm store ps)
  unfolding give_back_first IsReturn
  give_back_first-IsReturn [] hs = inl (refl, λ e. tt)
  give_back_first-IsReturn (p ∷ ps) hs =
      by_first (is_held_by k rm p) (p ∷ ps) _ _
        (λ e. give_back-IsReturn p (p ∷ ps) (k.update_error store (freed k p)) (hs.0, e))
        (λ e. one_more p ps (give_back_first k rm store ps) e (give_back_first-IsReturn ps hs.1))

  -- Machines that are not held stay, and after a success one that was held is free.
  pub IsGivenBack : Result Error Unit → List PooledRemoteMachine → Type 0
  IsGivenBack r store' =
      ((q : PooledRemoteMachine)
        → get q store ≡ some q
        → is_held_by k rm q ≡ false
        → get q store' ≡ some q)
      × (r ≡ ok tt
          → (p : PooledRemoteMachine) → get p store ≡ some p
          → is_held_by k rm p ≡ true
          → (q : PooledRemoteMachine) × IsHeld q × (get q store' ≡ some (freed k q)))

  freed-keeps :
      (p q : PooledRemoteMachine)
      → IsHeld p
      → get q store ≡ some q
      → is_held_by k rm q ≡ false
      → get q (put (freed k p) store) ≡ some q
  freed-keeps p q (there, held) q_there not_held = elim (Bool-cases (same_key p q)) [
    | inl e ↦
        let same : some p ≡ some q = sym there ∙ get-same p q store e ∙ q_there in
        let pq : p ≡ q = cc in
        absurd (false≢true (sym not_held ∙ ap (is_held_by k rm) (sym pq) ∙ held))
    | inr e ↦ get-put (freed k p) q store ∙ rw e q_there
  ]

  IsReturn-IsGivenBack :
      (r : Result Error Unit × List PooledRemoteMachine) → IsReturn store r → IsGivenBack r.0 r.1
  unfolding IsReturn IsGivenBack
  IsReturn-IsGivenBack r (inl (same, none_held)) = (
    (λ q there h. ap (get q) same ∙ there),
    λ good p there held.
        absurd (false≢true (sym (get-All _ p p store (none_held good) there) ∙ held)),
  )
  IsReturn-IsGivenBack r (inr (p, h, changed)) = (
    (λ q there not_held. ap (get q) changed ∙ freed-keeps p q h there not_held),
    λ good _ _ _. (
      p,
      h,
      ap (get p) changed
          ∙ get-put (freed k p) p store
          ∙ ground (arith, ==_self p.name, ==_self p.namespace, h.0),
    ),
  )

  return_listed-IsReturn :
      (ps : List PooledRemoteMachine)
      → ps ≡ store
      → IsKeyed store
      → (a : Option ApiError) → IsReturn store (return_listed k rm ps a)
  unfolding return_listed IsReturn
  return_listed-IsReturn ps same keyed (some a) = inl (same, λ e. cc)
  return_listed-IsReturn [] same keyed none =
      inl (same, λ e. subst (All (λ p. is_held_by k rm p ≡ false)) same tt)
  return_listed-IsReturn (p ∷ ps) same keyed none =
      subst (λ s. IsReturn store (give_back_first k rm s s)) (sym same)
        (give_back_first-IsReturn store keyed)

  -- For a RemoteMachine with a pool, if no two machines of the store have the same name and
  -- namespace: giving its machine back leaves every machine as it was that it does not hold; and
  -- when that succeeds and it held a machine, one that it held is free.
  pub return_gives_back :
      rm.spec.pool ≢ ""
      → IsKeyed store
      → let (r, store') = return_machine_to_pool k rm store in IsGivenBack r store'
  unfolding return_machine_to_pool
  return_gives_back pooled keyed = elim (Bool-cases (rm.spec.pool == "")) [
    | inl e ↦ absurd (pooled ((eq_iff rm.spec.pool "").0 e))
    | inr e ↦
        rw e (IsReturn-IsGivenBack _ (return_listed-IsReturn store refl keyed (k.list_error store)))
  ]
