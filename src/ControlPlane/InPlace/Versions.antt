-- ===== src/ControlPlane/InPlace/Versions.antt =====
-- The versions that a completed plan leaves in the Machine objects, in the table and on the server.
use k0smotron.Prelude.{
  String, List, [], ◌∷◌, ◌++◌, Bool, true, false, none, ◌≡◌, inl, inr, refl, ap, ◌∙◌, sym, subst,
  ◌==◌, eq_iff, ==_self, has, arith, Bool-cases, Option-cases,
}
use k0smotron.Kube.{
  Upstream, Api, Error, api, plain, wrap, fault, Result, ok, err, Json, Machine, patch_machine,
}
use k0smotron.Autopilot.{get_plan_target_nodes, get_plan_target_version}
use k0smotron.ControlPlane.Scope.{World, set_machine}
use k0smotron.ControlPlane.Action.{map_error, ◌>>=◌, with_context}
use k0smotron.ControlPlane.Action.Rules.{bind_outcome}
use k0smotron.ControlPlane.Machines.Server.{stored, stored-snoc}
use k0smotron.ControlPlane.Template.{lift_result}
use k0smotron.ControlPlane.InPlace.{
  update_machine_version, update_if_machine, update_each,
  ensure_target_machines_with_target_version,
}

-- `old` are the Machines before all requests. The server has each Machine as the table has it, under
-- the name that the object has.
abbrev pub IsSynced : Api → (String → Machine) → World → Type 0
IsSynced k old w =
    (a : String) → (stored k a (old a) w.calls ≡ w.machines a) × ((w.machines a).name ≡ a)

-- A context does not turn an error into a success.
map_error_ok : (f : Error → Error) (r : Result Error Unit) → map_error f r ≡ ok tt → r ≡ ok tt
map_error_ok f (ok a) h = refl
map_error_ok f (err (api a)) h = cc
map_error_ok f (err (plain t)) h = cc
map_error_ok f (err (wrap t e)) h = cc
map_error_ok f (err fault) h = cc

module _ (u : Upstream) (k : Api) (version : String) (old : String → Machine) where
  updated : String → World → Machine
  updated m w = let o = w.machines m in record o { version = version }

  sent : String → World → World
  sent m w =
      let w' = set_machine m (updated m w) w in
      record w' { calls = w.calls ++ patch_machine (updated m w) ∷ [] }

  -- If it succeeds: the server still has what the table has, what had the version keeps it, and the
  -- machine `m` has it if it is one.
  IsUpdated : String → Bool → World → Result Error Unit → World → Type 0
  IsUpdated m is_machine w r w' =
      r ≡ ok tt
      → IsSynced k old w'
        × (is_machine ≡ true → (w'.machines m).version ≡ version)
        × ((a : String) → (w.machines a).version ≡ version → (w'.machines a).version ≡ version)

  sent-IsSynced :
      (m : String) (w : World)
      → IsSynced k old w
      → k.reply w.calls (patch_machine (updated m w)) ≡ none
      → IsSynced k old (sent m w)
  unfolding sent updated
  sent-IsSynced m w sync e a = (
    stored-snoc k a (old a) w.calls (patch_machine (updated m w))
        ∙ ground (arith, e, eq_iff (w.machines m).name a, eq_iff m a, (sync m).1, (sync a).0),
    ground (arith, eq_iff m a, (sync m).1, (sync a).1),
  )

  update_machine_version-IsUpdated :
      (m : String) (w : World)
      → IsSynced k old w
      → let (r, w') = update_machine_version u k m version w in IsUpdated m true w r w'
  unfolding update_machine_version ◌>>=◌ sent updated IsUpdated
  update_machine_version-IsUpdated m w sync =
      elim (Bool-cases ((w.machines m).version == version)) [
        | inl e ↦
            rw e (λ good. (sync, (λ i. (eq_iff (w.machines m).version version).0 e), λ a h. h))
        | inr e ↦ elim (Option-cases (k.reply w.calls (patch_machine (updated m w)))) [
          | inl r ↦
              rw (e, r)
                (λ good. (
                  sent-IsSynced m w sync r,
                  (λ i. ground (arith, ==_self m)),
                  λ a h. ground (arith, eq_iff m a, h),
                ))
          | inr (x, r) ↦ rw (e, r) (λ good. cc)
        ]
      ]

  update_if_machine-IsUpdated :
      (m : String) (is_machine : Bool) (w : World)
      → IsSynced k old w
      → let (r, w') = update_if_machine u k version m is_machine w in IsUpdated m is_machine w r w'
  unfolding update_if_machine with_context IsUpdated ◌>>=◌
  update_if_machine-IsUpdated m false w sync = λ good. (sync, (λ e. cc), λ a h. h)
  update_if_machine-IsUpdated m true w sync = λ good.
      update_machine_version-IsUpdated m w sync
        (map_error_ok (wrap ("error updating machine version for" ∷ m ∷ [])) _ good)

  -- All machines of a list of nodes.
  AreUpdated : List String → List String → World → Result Error Unit → World → Type 0
  AreUpdated active ns w r w' =
      r ≡ ok tt
      → IsSynced k old w'
        × ((n : String) → has n ns ≡ true → has n active ≡ true → (w'.machines n).version ≡ version)
        × ((a : String) → (w.machines a).version ≡ version → (w'.machines a).version ≡ version)

  update_each-AreUpdated :
      (active ns : List String) (w : World)
      → IsSynced k old w
      → let (r, w') = update_each u k version active ns w in AreUpdated active ns w r w'
  unfolding update_each AreUpdated IsUpdated ◌>>=◌
  update_each-AreUpdated active [] w sync = λ good. (sync, (λ n e. cc), λ a e. e)
  update_each-AreUpdated active (n ∷ ns) w sync =
      let one = update_if_machine u k version n (has n active) in
      bind_outcome (λ r w'. AreUpdated active (n ∷ ns) w r w') one _ w
        (λ done is_done good.
          let first = update_if_machine-IsUpdated n (has n active) w sync is_done in
          let rest = update_each-AreUpdated active ns (one w).1 first.0 good in
          (
            rest.0,
            (λ m in_plan is_machine. elim (Bool-cases (n == m)) [
              | inl same ↦
                  let eq = (eq_iff n m).0 same in
                  let there = subst (λ z. has z active ≡ true) (sym eq) is_machine in
                  subst
                    (λ z.
                      ((update_each u k version active ns (one w).1).1.machines z).version
                      ≡ version)
                    eq (rest.2 n (first.1 there))
              | inr differ ↦ rest.1 m (ground (arith, in_plan, differ)) is_machine
            ]),
            λ m e. rest.2 m (first.2 m e),
          ))
        (λ e is_err good. cc)

ensure-is_update_each :
    (u : Upstream) (k : Api) (plan : Json) (nodes : List String) (version : String) (w : World)
    → get_plan_target_nodes u plan ≡ ok nodes
    → get_plan_target_version u plan ≡ ok version
    → ensure_target_machines_with_target_version u k plan w
      ≡ update_each u k version w.scope.active_machines nodes w
unfolding ensure_target_machines_with_target_version lift_result ◌>>=◌
ensure-is_update_each u k plan nodes version w is_nodes is_version = rw (is_nodes, is_version) refl

-- If the server has every Machine as the table has it, and the machines of a completed plan are
-- updated without an error: every active machine that the plan targets has the version that the plan
-- targets, in the table and on the server.
pub planned_machines_updated :
    (u : Upstream) (k : Api) (old : String → Machine) (plan : Json) (nodes : List String)
    (version : String) (w : World)
    → IsSynced k old w
    → get_plan_target_nodes u plan ≡ ok nodes
    → get_plan_target_version u plan ≡ ok version
    → (ensure_target_machines_with_target_version u k plan w).0 ≡ ok tt
    → (n : String) → has n nodes ≡ true
    → has n w.scope.active_machines ≡ true
    → let w' = (ensure_target_machines_with_target_version u k plan w).1 in
      ((w'.machines n).version ≡ version) × ((stored k n (old n) w'.calls).version ≡ version)
unfolding AreUpdated
planned_machines_updated u k old plan nodes version w sync is_nodes is_version good n in_plan
      active =
    let same = ensure-is_update_each u k plan nodes version w is_nodes is_version in
    let active_machines = w.scope.active_machines in
    let done =
      update_each-AreUpdated u k version old active_machines nodes w sync
        (sym (ap (λ p. p.0) same) ∙ good) in
    let set = done.1 n in_plan active in
    subst
      (λ p.
        ((p.1.machines n).version ≡ version) × ((stored k n (old n) p.1.calls).version ≡ version))
      (sym same) (set, ap (λ o. o.version) (done.0 n).0 ∙ set)
