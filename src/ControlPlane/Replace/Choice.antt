-- ===== src/ControlPlane/Replace/Choice.antt =====
-- Which machine a scale down takes.
use k0smotron.Prelude.{
  ◌<◌, String, List, [], ◌∷◌, ◌++◌, true, none, some, ◌≡◌, ◌⊎◌, inl, inr, refl, has, length, arith,
  ap, ◌∙◌,
}
use k0smotron.Kube.{Upstream, CollectionLaws, Api, delete_machine, Machine}
use k0smotron.ControlPlane.Scope.{World}
use k0smotron.ControlPlane.Action.{◌>>=◌}
use k0smotron.ControlPlane.Action.Rules.{unless_not_found-world}
use k0smotron.ControlPlane.Machines.{delete_machine_object}
use k0smotron.ControlPlane.Scaling.{is_needed_scale_down}
use k0smotron.ControlPlane.Scaling.Decisions.{IsPartitioned, scale_down_bounded}
use k0smotron.ControlPlane.Replace.{machine_to_delete, scale_down, delete_chosen}

module _ (u : Upstream) (laws : CollectionLaws u) where
  -- A machine that is not up to date, or an up to date one where there is none such.
  abbrev pub IsExpendable : World → String → Type 0
  IsExpendable w m =
      (has m w.scope.not_up_to_date_machines ≡ true)
      ⊎ ((w.scope.not_up_to_date_machines ≡ []) × (has m w.scope.up_to_date_machines ≡ true))

  oldest_of :
      (t : String → Machine) (ms : List String)
      → 0 < length ms
      → (m : String) × (u.oldest t ms ≡ some m) × (has m ms ≡ true)
  oldest_of t [] h = elim h [ ]
  oldest_of t (m ∷ ms) h =
      let (o, e) = laws.oldest_some t m ms in (o, e, laws.oldest_member t (m ∷ ms) o e)

  takes_outdated :
      (w : World) (m : String)
      → u.oldest w.machines w.scope.not_up_to_date_machines ≡ some m
      → machine_to_delete u w ≡ some m
  unfolding machine_to_delete
  takes_outdated w m e = rw (e, machine_to_delete) refl

  takes_another :
      (w : World) (m : String)
      → u.oldest w.machines w.scope.not_up_to_date_machines ≡ none
      → u.oldest w.machines w.scope.up_to_date_machines ≡ some m
      → machine_to_delete u w ≡ some m
  unfolding machine_to_delete
  takes_another w m e found = rw (e, machine_to_delete) found

  deletes_it :
      (k : Api) (w : World) (m : String)
      → machine_to_delete u w ≡ some m
      → (scale_down u k w).1.calls ≡ w.calls ++ delete_machine m ∷ []
  unfolding scale_down delete_chosen delete_machine_object ◌>>=◌
  deletes_it k w m found =
      rw found (ap (λ x. x.calls) (unless_not_found-world (k.reply w.calls (delete_machine m)) _ _))

  chosen :
      (w : World)
      → (0 < length w.scope.not_up_to_date_machines) ⊎ (0 < length w.scope.up_to_date_machines)
      → (m : String) × (machine_to_delete u w ≡ some m) × IsExpendable w m
  chosen w h = by_outdated w.scope.not_up_to_date_machines refl
    where
      by_outdated :
          (ms : List String)
          → w.scope.not_up_to_date_machines ≡ ms
          → (m : String) × (machine_to_delete u w ≡ some m) × IsExpendable w m
      by_outdated [] e =
          let (m, found, member) =
            oldest_of w.machines w.scope.up_to_date_machines (ground arith) in
          let none_left = ap (u.oldest w.machines) e ∙ laws.oldest_nil w.machines in
          (m, takes_another w m none_left found, inr (e, member))
      by_outdated (a ∷ ms) e =
          let (m, found, member) =
            oldest_of w.machines w.scope.not_up_to_date_machines (ground arith) in
          (m, takes_outdated w m found, inl member)

  -- If the active machines are split into up to date ones and others and a scale down is needed,
  -- there is a machine to take, and the scale down sends one request, to delete it: a machine that is
  -- not up to date, and an up to date one only if all are.
  pub scale_down_choice :
      (k : Api) (w : World)
      → IsPartitioned w.scope
      → is_needed_scale_down w.scope ≡ true
      → (m : String) × IsExpendable w m
        × ((scale_down u k w).1.calls ≡ w.calls ++ delete_machine m ∷ [])
  scale_down_choice k w p h =
      let (m, found, good) = chosen w (ground (arith, scale_down_bounded w.scope h)) in
      (m, good, deletes_it k w m found)
