-- ===== src/ControlPlane/Reconcile/Deletion.antt =====
-- In which order a control plane is taken down.
use k0smotron.Prelude.{
  String, List, [], ◌∷◌, Bool, false, ◌≡◌, ◌≢◌, refl, ap, length, map, nat_eq, arith, Bool-cases,
  inl, inr,
}
use k0smotron.Kube.{
  Upstream, Api, Error, Result, ok, CtrlResult, zero_result, Machine, Call, delete_machine,
}
use k0smotron.ControlPlane.Scope.{World}
use k0smotron.ControlPlane.Action.{◌>>=◌, gather, send}
use k0smotron.ControlPlane.Action.Frame.{Frame, Frame-bind, Frame-gather, Frame-send, frame_rules}
use k0smotron.ControlPlane.Machines.Effects.{scope-Blind, remove_pre_terminate_hook-Frame}
use k0smotron.ControlPlane.Retrieval.{table_of}
use k0smotron.ControlPlane.InPlace.{wait_a_little}
use k0smotron.ControlPlane.Reconcile.{
  delete_one, delete_unless_deleting, with_errors, delete_machines, delete_listed, reconcile_delete,
}

-- For the machines of the cluster and those of them that are the control plane's, and for the
-- requests and the finalizer before.
abbrev pub IsOrderly :
    List String → List String → List Call → Bool → Result Error CtrlResult → World → Type 0
IsOrderly all [] calls finalizer r w' =
    (r ≡ ok zero_result) × (w'.calls ≡ calls) × (w'.scope.kcp.finalizer ≡ false)
IsOrderly all (m ∷ ms) calls finalizer r w' =
    (w'.scope.kcp.finalizer ≡ finalizer)
    × (length all ≢ length (m ∷ ms) → (r ≡ ok wait_a_little) × (w'.calls ≡ calls))

module _ (u : Upstream) (k : Api) where
  send_delete-Frame : (m : String) → Frame (λ w. w.scope) (send k (delete_machine m))
  send_delete-Frame m = Frame-send k (delete_machine m) (λ w. refl)

  delete_one-Frame : (m : String) → Frame (λ w. w.scope) (delete_one u k m)
  unfolding delete_one
  delete_one-Frame m =
      search (frame_rules, send_delete-Frame, remove_pre_terminate_hook-Frame scope-Blind u k)

  delete_unless_deleting-Frame : (m : String) → Frame (λ w. w.scope) (delete_unless_deleting u k m)
  unfolding delete_unless_deleting
  delete_unless_deleting-Frame m = search (frame_rules, delete_one-Frame)

  with_errors-Frame : (es : List Error) → Frame (λ w. w.scope) (with_errors u k es)
  unfolding with_errors
  with_errors-Frame es = record { at = λ w. refl }

  delete_all-Frame :
      (ms : List String)
      → Frame (λ w. w.scope) (gather (delete_unless_deleting u k) ms >>= with_errors u k)
  delete_all-Frame ms =
      Frame-bind (Frame-gather _ ms delete_unless_deleting-Frame) λ es. with_errors-Frame es

  delete_machines-IsOrderly :
      (all ms : List String) (w : World)
      → let (r, w') = delete_machines u k all ms w in
        IsOrderly all ms w.calls w.scope.kcp.finalizer r w'
  unfolding delete_machines ◌>>=◌
  delete_machines-IsOrderly all [] w = (refl, refl, refl)
  delete_machines-IsOrderly all (m ∷ ms) w =
      elim (Bool-cases (nat_eq (length all) (length (m ∷ ms)))) [
        | inl e ↦ rw e (
          ap (λ s. s.kcp.finalizer) ((delete_all-Frame (m ∷ ms)).at w),
          λ differ. absurd (differ (ground (arith, e))),
        )
        | inr e ↦ rw e (refl, λ differ. (refl, refl))
      ]

-- Where the API server lists the machines of the cluster: if none of them is the control plane's,
-- the finalizer is removed and nothing is sent; else the finalizer stays, and as long as there are
-- other machines than the control plane's nothing is sent either, and the controller comes back.
pub reconcile_delete-IsOrderly :
    (u : Upstream) (k : Api) (w : World) (os : List Machine)
    → k.list_machines w.calls ≡ ok os
    → let t = table_of os w.machines in
      let names = map (λ o. o.name) os in
      let mine = u.filter (λ m. u.control_plane_machine w.scope.cluster.name (t m)) names in
      let (r, w') = reconcile_delete u k w in
      IsOrderly names mine w.calls w.scope.kcp.finalizer r w'
unfolding reconcile_delete delete_listed ◌>>=◌
reconcile_delete-IsOrderly u k w os listed = rw listed (
    delete_machines-IsOrderly u k (map (λ o. o.name) os) _
      (record w { machines = table_of os w.machines }))
