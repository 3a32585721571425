-- ===== src/ControlPlane/Scaling/Rollout.antt =====
-- Rollouts: sequences of scale ups, scale downs and finished deletions. The decisions of scale.go
-- look only at how many machines there are of each kind, so a rollout runs on those counts.
pub mod Completion
use k0smotron.Prelude.{
  ℕ, zero, suc, ◌+◌, ◌-◌, ◌*◌, ◌≤◌, ◌<◌, ◌≡◌, ◌⊎◌, inl, inr, refl, String, List, [], ◌∷◌, true,
  false, length, ltb, ltb→lt, Bool-cases, arith, sym,
}
use k0smotron.ControlPlane.Scope.{Scope}
use k0smotron.ControlPlane.Scaling.{
  is_needed_scale_up, is_needed_scale_down, is_desired_state_reached,
}

pub record Fleet : Type 0 where
  pub up_to_date : ℕ
  pub outdated : ℕ
  pub deleting : ℕ

unfoldable pub names : ℕ → List String
names zero = []
names (suc n) = "" ∷ names n

length-names : (n : ℕ) → length (names n) ≡ n
unfolding names
length-names zero = refl
length-names (suc n) = omega (arith, length-names n)

-- A struct with the given numbers of machines, and the control plane of another.
unfoldable pub view : Scope → Fleet → Scope
unfolding names
view s f = record s {
  active_machines = names (f.up_to_date + f.outdated);
  up_to_date_machines = names f.up_to_date;
  not_up_to_date_machines = names f.outdated;
  deleted_machines = names f.deleting;
}

-- The counts of a struct.
pub fleet : Scope → Fleet
fleet s = record {
  up_to_date = length s.up_to_date_machines;
  outdated = length s.not_up_to_date_machines;
  deleting = length s.deleted_machines;
}

-- A step of a rollout under the control plane of `s`. The last is the machine controller's.
pub data Step (s : Scope) : Fleet → Fleet → Type 0 where
  create :
      (f : Fleet)
      → is_needed_scale_up (view s f) ≡ true
      → Step s f (record f { up_to_date = f.up_to_date + 1 })
  take_outdated :
      (f : Fleet)
      → is_needed_scale_up (view s f) ≡ false
      → is_needed_scale_down (view s f) ≡ true
      → 0 < f.outdated
      → Step s f (record f { outdated = f.outdated - 1; deleting = f.deleting + 1 })
  take_excess :
      (f : Fleet)
      → is_needed_scale_up (view s f) ≡ false
      → is_needed_scale_down (view s f) ≡ true
      → f.outdated ≡ 0
      → Step s f (record f { up_to_date = f.up_to_date - 1; deleting = f.deleting + 1 })
  gone : (f : Fleet) → 0 < f.deleting → Step s f (record f { deleting = f.deleting - 1 })

-- So many steps.
pub data Steps (s : Scope) : ℕ → Fleet → Fleet → Type 0 where
  here : {f : Fleet} → Steps s zero f f
  next : {n : ℕ} {f g h : Fleet} → Step s f g → Steps s n g h → Steps s (suc n) f h

-- What is left to do.
abbrev pub cost : Scope → Fleet → ℕ
cost s f =
    (s.kcp.spec.replicas - f.up_to_date)
    + 2 * (f.up_to_date - s.kcp.spec.replicas)
    + 2 * f.outdated
    + f.deleting

abbrev pub total : Fleet → ℕ
total f = f.up_to_date + f.outdated + f.deleting

abbrev pub IsDesired : Scope → Fleet → Type 0
IsDesired s f = is_desired_state_reached (view s f) ≡ true

scale_up_counts :
    (s : Scope) (f : Fleet)
    → is_needed_scale_up (view s f) ≡ true
    → (f.up_to_date < s.kcp.spec.replicas) × (total f ≤ s.kcp.spec.replicas)
unfolding is_needed_scale_up view
scale_up_counts s f h = ground (
  arith,
  length-names f.up_to_date,
  length-names (f.up_to_date + f.outdated),
  length-names f.deleting,
)

scale_down_counts :
    (s : Scope) (f : Fleet)
    → is_needed_scale_down (view s f) ≡ true
    → (2 ≤ f.up_to_date + f.outdated)
      × ((0 < f.outdated) ⊎ (s.kcp.spec.replicas < f.up_to_date + f.outdated))
unfolding is_needed_scale_down view
scale_down_counts s f h =
    ground (arith, length-names f.outdated, length-names (f.up_to_date + f.outdated))

-- Every step brings the fleet one closer.
Step-cost : {s : Scope} {f g : Fleet} → Step s f g → cost s f ≡ cost s g + 1
Step-cost {s} (create f h) = omega (arith, scale_up_counts s f h)
Step-cost (take_outdated f _ _ h) = omega arith
Step-cost {s} (take_excess f _ d h) = ground (arith, scale_down_counts s f d)
Step-cost (gone f h) = omega arith

-- A rollout of any number of steps has used up exactly that much of what there was to do, so no
-- rollout is longer than the cost of its start.
pub rollout_terminates : {s : Scope} {n : ℕ} {f g : Fleet} → Steps s n f g → cost s f ≡ n + cost s g
rollout_terminates here = omega arith
rollout_terminates (next st r) = omega (arith, Step-cost st, rollout_terminates r)

Step-total :
    {s : Scope} {f g : Fleet} (b : ℕ)
    → s.kcp.spec.replicas + 1 ≤ b
    → total f ≤ b
    → Step s f g
    → total g ≤ b
Step-total {s} b r t (create f h) = omega (arith, scale_up_counts s f h)
Step-total b r t (take_outdated f _ _ h) = omega arith
Step-total {s} b r t (take_excess f _ d h) = ground (arith, scale_down_counts s f d)
Step-total b r t (gone f h) = omega arith

-- At no time does a rollout have more machines, those being deleted included, than one over the
-- replicas, unless it began with more; then it never has more than at the beginning.
pub rollout_bounded :
    {s : Scope} {n : ℕ} {f g : Fleet} (b : ℕ)
    → s.kcp.spec.replicas + 1 ≤ b
    → total f ≤ b
    → Steps s n f g
    → total g ≤ b
rollout_bounded b r t here = t
rollout_bounded b r t (next st rest) = rollout_bounded b r (Step-total b r t st) rest

Step-alive :
    {s : Scope} {f g : Fleet}
    → 1 ≤ f.up_to_date + f.outdated
    → Step s f g
    → 1 ≤ g.up_to_date + g.outdated
Step-alive a (create f h) = omega arith
Step-alive {s} a (take_outdated f _ d h) = ground (arith, scale_down_counts s f d)
Step-alive {s} a (take_excess f _ d h) = ground (arith, scale_down_counts s f d)
Step-alive a (gone f h) = a

-- A control plane with an active machine has one at every point of a rollout.
pub rollout_alive :
    {s : Scope} {n : ℕ} {f g : Fleet}
    → 1 ≤ f.up_to_date + f.outdated
    → Steps s n f g
    → 1 ≤ g.up_to_date + g.outdated
rollout_alive a here = a
rollout_alive a (next st rest) = rollout_alive (Step-alive a st) rest
