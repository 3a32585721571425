-- ===== src/ControlPlane/Deletions/Gone.antt =====
-- Which machines are deleted for want of infrastructure.
use k0smotron.Prelude.{
  ℕ, ◌+◌, ◌≤◌, String, List, [], ◌∷◌, ◌++◌, Bool, Option, none, is_some, ◌≡◌, ◌≢◌, refl, ap, ◌∙◌,
  arith, not, count, update, Option-cases, inl, inr, eq_iff, ltb, length, if◌then◌else◌,
}
use k0smotron.Kube.{Upstream, Api, Error, api, plain, wrap, fault, Result, ok, err, InfraMachine}
use k0smotron.ControlPlane.Scope.{World}
use k0smotron.ControlPlane.Action.{◌>>=◌, error_list, errors_of, with_context, gather}
use k0smotron.ControlPlane.Action.Frame.{Frame, Frame-send, frame_rules}
use k0smotron.ControlPlane.Action.Rules.{bind_outcome, raise_option-world}
use k0smotron.ControlPlane.Machines.{
  delete_machine_object, delete_k0s_node_resources, remove_machine_from_scope,
}
use k0smotron.ControlPlane.Machines.Effects.{
  deletes-delete_machine_object, deletes, deletes-Blind, scope-Blind,
  delete_k0s_node_resources-Frame,
}
use k0smotron.ControlPlane.Deletions.{
  leave_deleted, drop_machine, drop_unless_exists, drop_if_gone, reconcile_manual_deletions,
}

-- The infrastructure machine is not there.
abbrev pub is_gone : World → String → Bool
is_gone w m = not (is_some (w.scope.infra_machines m))

error_list-fault : (r : Result Error Unit) (e : Error) → error_list r ≡ err e → e ≡ fault
error_list-fault (ok x) e h = cc
error_list-fault (err fault) e h = cc
error_list-fault (err (api a)) e h = cc
error_list-fault (err (plain t)) e h = cc
error_list-fault (err (wrap t x)) e h = cc

-- From `w` on: so many deletions more, fewer only after a panic, and the same infrastructure.
abbrev HasDeleted : {A : Type 0} → World → ℕ → Result Error A → World → Type 0
HasDeleted {A} w n r w' =
    (w'.scope.infra_machines ≡ w.scope.infra_machines)
    × (deletes w' ≤ deletes w + n)
    × ((e : Error) → r ≡ err e → e ≡ fault)
    × ((a : A) → r ≡ ok a → deletes w' ≡ deletes w + n)

after_ok :
    {A : Type 0} (w : World) (n : ℕ) (a : A) (w' : World)
    → w'.scope.infra_machines ≡ w.scope.infra_machines
    → deletes w' ≡ deletes w + n
    → HasDeleted w n (ok a) w'
after_ok w n a w' same e = (same, omega (arith, e), (λ x h. cc), (λ b h. e))

after_err :
    {A : Type 0} (w : World) (n : ℕ) (e : Error) (w' : World)
    → w'.scope.infra_machines ≡ w.scope.infra_machines
    → deletes w' ≤ deletes w + n
    → e ≡ fault
    → HasDeleted {A = A} w n (err e) w'
after_err w n e w' same l h = (same, l, (λ x eq. cc), (λ b eq. cc))

module _ (u : Upstream) (k : Api) where
  delete_machine_object-scope : (m : String) → Frame (λ w. w.scope) (delete_machine_object u k m)
  unfolding delete_machine_object
  delete_machine_object-scope m = search (frame_rules, Frame-send)

  none_left : (i : String → Option InfraMachine) (m : String) → i m ≡ none → update i m none ≡ i
  none_left i m h = λ p j. same j p
    where
      same : (j : String) → update i m none j ≡ i j
      same j = ground (arith, eq_iff m j)

  module _ (m : String) (w : World) where
    left : World
    left =
        (errors_of
          (with_context (wrap ("error deleting k0s node resources" ∷ []))
            (delete_k0s_node_resources u k m))
          w).1

    dropped : World
    dropped =
        (errors_of
          (with_context (wrap ("error deleting machine" ∷ [])) (delete_machine_object u k m)) w).1

    left-scope : left.scope ≡ w.scope
    unfolding left errors_of with_context
    left-scope = (delete_k0s_node_resources-Frame scope-Blind u k m).at w

    left-deletes : deletes left ≡ deletes w
    unfolding left errors_of with_context
    left-deletes = (delete_k0s_node_resources-Frame deletes-Blind u k m).at w

    dropped-scope : dropped.scope ≡ w.scope
    unfolding dropped errors_of with_context
    dropped-scope = (delete_machine_object-scope m).at w

    dropped-deletes : deletes dropped ≡ deletes w + 1
    unfolding dropped errors_of with_context
    dropped-deletes = deletes-delete_machine_object u k m w

  drop_machine_lem :
      (m : String) (w : World)
      → w.scope.infra_machines m ≡ none
      → HasDeleted w 1 (drop_machine u k m w).0 (drop_machine u k m w).1
  unfolding drop_machine errors_of left dropped with_context remove_machine_from_scope ◌>>=◌
  drop_machine_lem m w h =
      let leave =
        with_context (wrap ("error deleting k0s node resources" ∷ []))
          (delete_k0s_node_resources u k m) in
      let gone =
        with_context (wrap ("error deleting machine" ∷ [])) (delete_machine_object u k m) in
      let w1 = (errors_of leave w).1 in
      let w2 = (errors_of gone w1).1 in
      let same1 = left-scope m w in
      let kept1 = left-deletes m w in
      let same2 = dropped-scope m w1 in
      let made = dropped-deletes m w1 in
      bind_outcome (HasDeleted w 1) (errors_of leave) _ w
        (λ e1 _.
          bind_outcome (HasDeleted w 1) (errors_of gone) _ w1
            (λ e2 _.
              after_ok w 1 (e1 ++ e2) (remove_machine_from_scope m w2)
                (ap (λ s. update s.infra_machines m none) (same2 ∙ same1)
                  ∙ none_left w.scope.infra_machines m h)
                (omega (arith, kept1, made)))
            (λ e bad.
              after_err w 1 e w2 (ap (λ s. s.infra_machines) (same2 ∙ same1))
                (omega (arith, kept1, made)) (error_list-fault _ e bad)))
        (λ e bad.
          after_err w 1 e w1 (ap (λ s. s.infra_machines) same1) (omega (arith, kept1))
            (error_list-fault _ e bad))

  drop_if_gone_lem :
      (m : String) (w : World)
      → HasDeleted w (count (is_gone w) (m ∷ [])) (drop_if_gone u k m w).0 (drop_if_gone u k m w).1
  unfolding drop_if_gone drop_unless_exists ◌>>=◌
  drop_if_gone_lem m w = elim (Option-cases (w.scope.infra_machines m)) [
    | inl e ↦ rw e (drop_machine_lem m w e)
    | inr (i, e) ↦ rw e (after_ok w 0 [] w refl (omega arith))
  ]

  gather_lem :
      (ms : List String) (w : World)
      → HasDeleted w
          (count (is_gone w) ms)
          (gather (drop_if_gone u k) ms w).0
          (gather (drop_if_gone u k) ms w).1
  unfolding gather
  gather_lem [] w = after_ok w 0 [] w refl (omega arith)
  gather_lem (m ∷ ms) w =
      let one = drop_if_gone_lem m w in
      let w1 = (drop_if_gone u k m w).1 in
      let more = gather_lem ms w1 in
      let w2 = (gather (drop_if_gone u k) ms w1).1 in
      let n = count (is_gone w) (m ∷ ms) in
      let same = more.0 ∙ one.0 in
      let gone = ap (λ i. count (λ x. not (is_some (i x))) ms) one.0 in
      bind_outcome (HasDeleted w n) (drop_if_gone u k m) _ w
        (λ es good.
          bind_outcome (HasDeleted w n) (gather (drop_if_gone u k) ms) _ w1
            (λ rest good'.
              after_ok w n (es ++ rest) w2 same
                (ground (arith, gone, one.3 es good, more.3 rest good')))
            (λ e bad. after_err w n e w2 same (ground (arith, gone, one.1, more.1)) (more.2 e bad)))
        (λ e bad. after_err w n e w1 one.0 (ground (arith, one.1)) (one.2 e bad))

  leave_deleted-deletes : (ms : List String) → Frame deletes (gather (leave_deleted u k) ms)
  unfolding leave_deleted
  leave_deleted-deletes ms = search (frame_rules, delete_k0s_node_resources-Frame deletes-Blind)

  leave_deleted-scope : (ms : List String) → Frame (λ w. w.scope) (gather (leave_deleted u k) ms)
  unfolding leave_deleted
  leave_deleted-scope ms = search (frame_rules, delete_k0s_node_resources-Frame scope-Blind)

  abbrev OnlyPanics : {A : Type 0} → Result Error A → World → Type 0
  OnlyPanics r w = (e : Error) → r ≡ err e → e ≡ fault

  left_panics : (m : String) (w : World) (x : Error) → (leave_deleted u k m w).0 ≡ err x → x ≡ fault
  unfolding leave_deleted errors_of
  left_panics m w x bad = error_list-fault _ x bad

  leave_deleted-OnlyPanics :
      (ms : List String) (w : World)
      → OnlyPanics (gather (leave_deleted u k) ms w).0 (gather (leave_deleted u k) ms w).1
  unfolding gather
  leave_deleted-OnlyPanics [] w = λ e h. cc
  leave_deleted-OnlyPanics (m ∷ ms) w =
      bind_outcome OnlyPanics (leave_deleted u k m) _ w
        (λ es _.
          bind_outcome OnlyPanics (gather (leave_deleted u k) ms) _ _ (λ rest _ e h. cc)
            (λ e bad x h. leave_deleted-OnlyPanics ms _ x (bad ∙ h)))
        (λ e bad x h. left_panics m w x (bad ∙ h))

  abbrev Counted : World → Result Error Unit → World → Type 0
  Counted w r w' =
      let n = count (is_gone w) w.scope.active_machines in
      (deletes w' ≤ deletes w + n) × (r ≢ err fault → deletes w' ≡ deletes w + n)

  -- Reconciling the manual deletions asks to delete at most as many machines as there are active
  -- ones without infrastructure, and unless something panics exactly as many, whatever other errors
  -- occur on the way.
  pub manual_deletions_count :
      (w : World)
      → let (r, w') = reconcile_manual_deletions u k w in
        let n = count (is_gone w) w.scope.active_machines in
        (deletes w' ≤ deletes w + n) × (r ≢ err fault → deletes w' ≡ deletes w + n)
  unfolding reconcile_manual_deletions ◌>>=◌
  manual_deletions_count w =
      let deleted =
        if ltb 0 (length w.scope.deleted_machines)
        then u.sorted_by_creation w.machines w.scope.deleted_machines
        else [] in
      let w1 = (gather (leave_deleted u k) deleted w).1 in
      let active = w1.scope.active_machines in
      let w2 = (gather (drop_if_gone u k) active w1).1 in
      let kept = (leave_deleted-deletes deleted).at w in
      let same =
        ap (λ s. count (λ m. not (is_some (s.infra_machines m))) s.active_machines)
          ((leave_deleted-scope deleted).at w) in
      let more = gather_lem active w1 in
      bind_outcome (Counted w) (gather (leave_deleted u k) deleted) _ w
        (λ e1 _.
          bind_outcome (Counted w) (gather (drop_if_gone u k) active) _ w1
            (λ e2 good.
              let end = ap deletes (raise_option-world (u.new_aggregate (e1 ++ e2)) w2) in
              (
                omega (arith, end, kept, same, more.1),
                λ _. omega (arith, end, kept, same, more.3 e2 good),
              ))
            (λ e bad. (omega (arith, kept, same, more.1), λ h. absurd (h (ap err (more.2 e bad))))))
        (λ e bad. (
          omega (arith, kept),
          λ h. absurd (h (ap err (leave_deleted-OnlyPanics deleted w e bad))),
        ))
