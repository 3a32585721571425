-- ===== src/RemoteMachine/Pool.antt =====
-- Reserving a machine of a pool and giving it back:
-- reservePooledMachineAndPopulateRemoteMachine, returnMachineToPool and mergedMap in
-- internal/controller/infrastructure/remote_machine_controller.go. The pool is the list of
-- PooledRemoteMachines that the API server has. Both functions send one update at most.
pub mod Store
pub mod Reserve
pub mod Return
use Prim.Native.Nat.{Ordering}
use Prim.Native.String.{compare}
use k0smotron.Prelude.{
  String, List, [], ◌∷◌, Bool, true, false, not, ◌&&◌, ◌==◌, Option, none, some, is_some, keep,
  if◌then◌else◌, StringMap, copy_into,
}
use k0smotron.Kube.{ApiError, Error, api, plain, wrap, Result, ok, err}
use k0smotron.RemoteMachine.{RemoteMachine, PooledRemoteMachine, RemoteMachineRef}

-- How the API server answers: a failure of the list, and of the update of a status.
pub record PoolApi : Type 0 where
  pub list_error : List PooledRemoteMachine → Option ApiError
  pub update_error : List PooledRemoteMachine → PooledRemoteMachine → Option ApiError

abbrev pub same_key : PooledRemoteMachine → PooledRemoteMachine → Bool
same_key p q = p.name == q.name && p.namespace == q.namespace

-- The object under the key of another.
abbrev pub get : PooledRemoteMachine → List PooledRemoteMachine → Option PooledRemoteMachine
get p [] = none
get p (q ∷ qs) = let rest = get p qs in if same_key q p then some q else rest

-- The update of an object on the server.
abbrev pub put : PooledRemoteMachine → List PooledRemoteMachine → List PooledRemoteMachine
put p [] = []
put p (q ∷ qs) = let rest = put p qs in if same_key q p then p ∷ rest else q ∷ rest

-- sort.Slice by name
abbrev is_less : String → String → Bool
is_less a b = elim (compare a b) [ Ordering.lt ↦ true | _ ↦ false ]

abbrev insert_sorted : PooledRemoteMachine → List PooledRemoteMachine → List PooledRemoteMachine
insert_sorted p [] = p ∷ []
insert_sorted p (q ∷ qs) =
    let rest = insert_sorted p qs in if is_less q.name p.name then q ∷ rest else p ∷ q ∷ qs

abbrev sort_by_name : List PooledRemoteMachine → List PooledRemoteMachine
sort_by_name [] = []
sort_by_name (p ∷ ps) = insert_sorted p (sort_by_name ps)

-- len(src) == 0, or maps.Copy into a map that is made if there is none
abbrev pub merged_map : StringMap → StringMap → StringMap
merged_map dst src = copy_into dst src

abbrev is_own : RemoteMachine → PooledRemoteMachine → Bool
is_own rm p = p.reserved && p.machine_ref.name == rm.name

-- The loop: the machine that is reserved already, at which it breaks, and the first free one.
abbrev scan :
    RemoteMachine
    → List PooledRemoteMachine
    → Option PooledRemoteMachine
    → Option PooledRemoteMachine × Option PooledRemoteMachine
scan rm [] free = (none, free)
scan rm (p ∷ ps) free =
    let is_first_free = not p.reserved && not (is_some free) in
    let next = if p.pool == rm.spec.pool && is_first_free then some p else free in
    let rest = scan rm ps next in
    if p.pool == rm.spec.pool && is_own rm p then (some p, free) else rest

abbrev pub reserved_for : RemoteMachine → PooledRemoteMachine → PooledRemoteMachine
reserved_for rm p = record p {
  reserved = true;
  machine_ref = record { name = rm.name; namespace = rm.namespace };
}

abbrev pub populate : RemoteMachine → PooledRemoteMachine → RemoteMachine
populate rm p =
    let spec = rm.spec in
    record rm {
      labels = merged_map rm.labels p.labels;
      annotations = merged_map rm.annotations p.annotations;
      spec = record spec { machine = p.machine };
    }

-- ErrPooledMachineNotFound
abbrev pub pooled_machine_not_found : Error
pooled_machine_not_found = plain ("free pooled machine not found" ∷ [])

module _ (k : PoolApi) where
  reserve_free :
      RemoteMachine
      → PooledRemoteMachine
      → List PooledRemoteMachine
      → Option ApiError
      → Result Error RemoteMachine × List PooledRemoteMachine
  reserve_free rm p store (some a) =
      (err (wrap ("failed to update pooled machine status" ∷ []) (api a)), store)
  reserve_free rm p store none =
      (ok (populate rm (reserved_for rm p)), put (reserved_for rm p) store)

  reserve_found :
      RemoteMachine
      → List PooledRemoteMachine
      → Option PooledRemoteMachine × Option PooledRemoteMachine
      → Result Error RemoteMachine × List PooledRemoteMachine
  unfolding reserve_free
  reserve_found rm store (some p, free) = (ok (populate rm p), store)
  reserve_found rm store (none, none) = (err pooled_machine_not_found, store)
  reserve_found rm store (none, some p) =
      reserve_free rm p store (k.update_error store (reserved_for rm p))

  -- The objects of the namespace, sorted.
  abbrev listed : RemoteMachine → List PooledRemoteMachine → List PooledRemoteMachine
  listed rm store = sort_by_name (keep (λ p. p.namespace == rm.namespace) store)

  reserve_listed :
      RemoteMachine
      → List PooledRemoteMachine
      → Option ApiError
      → Result Error RemoteMachine × List PooledRemoteMachine
  unfolding reserve_found
  reserve_listed rm store (some a) =
      (err (wrap ("failed to list pooled machines" ∷ []) (api a)), store)
  reserve_listed rm store none = reserve_found rm store (scan rm (listed rm store) none)

  unfoldable pub reserve :
      RemoteMachine
      → List PooledRemoteMachine
      → Result Error RemoteMachine × List PooledRemoteMachine
  unfolding reserve_listed
  reserve rm store = reserve_listed rm store (k.list_error store)

  -- Of this very RemoteMachine.
  abbrev pub is_held_by : RemoteMachine → PooledRemoteMachine → Bool
  is_held_by rm p =
      p.reserved && (p.machine_ref.name == rm.name && p.machine_ref.namespace == rm.namespace)

  abbrev pub freed : PooledRemoteMachine → PooledRemoteMachine
  freed p = record p { reserved = false; machine_ref = record { name = ""; namespace = "" } }

  give_back :
      PooledRemoteMachine
      → List PooledRemoteMachine
      → Option ApiError
      → Result Error Unit × List PooledRemoteMachine
  give_back p store (some a) = (err (wrap ("failed to update pooled machine" ∷ []) (api a)), store)
  give_back p store none = (ok tt, put (freed p) store)

  -- The loop over all namespaces; it returns at the first machine that is held.
  give_back_first :
      RemoteMachine
      → List PooledRemoteMachine
      → List PooledRemoteMachine
      → Result Error Unit × List PooledRemoteMachine
  unfolding give_back
  give_back_first rm store [] = (ok tt, store)
  give_back_first rm store (p ∷ ps) =
      let rest = give_back_first rm store ps in
      if is_held_by rm p then give_back p store (k.update_error store (freed p)) else rest

  return_listed :
      RemoteMachine
      → List PooledRemoteMachine
      → Option ApiError
      → Result Error Unit × List PooledRemoteMachine
  unfolding give_back_first
  return_listed rm store (some a) =
      (err (wrap ("failed to list pooled machines" ∷ []) (api a)), store)
  return_listed rm [] none = (
    if rm.deleting
        then ok tt
        else err (plain ("no pooled machines found for pool" ∷ rm.spec.pool ∷ [])),
    [],
  )
  return_listed rm (p ∷ ps) none = give_back_first rm (p ∷ ps) (p ∷ ps)

  unfoldable pub return_machine_to_pool :
      RemoteMachine → List PooledRemoteMachine → Result Error Unit × List PooledRemoteMachine
  unfolding return_listed
  return_machine_to_pool rm store =
      if rm.spec.pool == "" then (ok tt, store) else return_listed rm store (k.list_error store)
