-- ===== src/ControlPlane/Machines/Effects.antt =====
-- The requests about single machines neither create nor delete Machine objects, and leave the
-- struct alone: leaving the cluster, removing the hook and setting conditions only ever touch the
-- object itself and the workload cluster.
use k0smotron.Prelude.{
  ◌+◌, ℕ, String, List, [], ◌∷◌, ◌++◌, Bool, true, false, Option, none, some, ◌≡◌, refl, ap, count,
  count-append, arith,
}
use k0smotron.Kube.{
  Upstream, Api, ApiError, not_found, refused, Error, Result, ok, err, Call, Machine, Json, object,
  delete_machine, apply_machine,
}
use k0smotron.ControlPlane.Scope.{World, set_machine}
use k0smotron.ControlPlane.Action.{◌>>=◌, modify, send}
use k0smotron.ControlPlane.Action.Frame.{Frame, Frame-send, Frame-modify, frame_rules}
use k0smotron.ControlPlane.Machines.{
  delete_machine_object, set_up_to_date_condition, set_up_to_date_machine_condition, delete_left,
  check_conditions, left_by_conditions, left_by_member, check_machine_left, or_mark_control_node,
  mark_child_control_node_to_leave, delete_control_node_object, remove_pre_terminate_hook,
  leave_once, leave_by_clientset, leave_cluster, delete_k0s_node_resources,
}

abbrev pub is_delete : Call → Bool
is_delete (delete_machine m) = true
is_delete _ = false

abbrev pub is_create : Call → Bool
is_create (apply_machine o) = true
is_create _ = false

-- How many Machine objects the controller has asked to delete, and to create.
abbrev pub deletes : World → ℕ
deletes w = count is_delete w.calls

abbrev pub creates : World → ℕ
creates w = count is_create w.calls

-- Neither.
abbrev pub IsQuiet : Call → Type 0
IsQuiet (delete_machine m) = ⊥
IsQuiet (apply_machine o) = ⊥
IsQuiet _ = Unit

-- `g` sees neither the quiet requests nor the Machine objects.
pub record Blind {B : Type 0} (g : World → B) : Type 0 where
  pub quiet :
      (c : Call) → IsQuiet c → (w : World) → g (record w { calls = w.calls ++ c ∷ [] }) ≡ g w
  pub objects : (m : String) (o : Machine) (w : World) → g (set_machine m o w) ≡ g w

quiet-deletes :
    (c : Call)
    → IsQuiet c
    → (w : World) → deletes (record w { calls = w.calls ++ c ∷ [] }) ≡ deletes w
quiet-deletes (delete_machine m) q w = absurd q
quiet-deletes c q w = omega (arith, count-append is_delete w.calls (c ∷ []))

quiet-creates :
    (c : Call)
    → IsQuiet c
    → (w : World) → creates (record w { calls = w.calls ++ c ∷ [] }) ≡ creates w
quiet-creates (delete_machine m) q w = absurd q
quiet-creates (apply_machine o) q w = absurd q
quiet-creates c q w = omega (arith, count-append is_create w.calls (c ∷ []))

pub deletes-Blind : Blind deletes
deletes-Blind = record { quiet = quiet-deletes; objects = λ m o w. refl }

pub creates-Blind : Blind creates
creates-Blind = record { quiet = quiet-creates; objects = λ m o w. refl }

pub scope-Blind : Blind (λ w. w.scope)
scope-Blind = record { quiet = λ c q w. refl; objects = λ m o w. refl }

-- `g` reads the requests only, and does not see the quiet ones.
pub record OfCalls {B : Type 0} (g : World → B) : Type 0 where
  pub same : (w w' : World) → w'.calls ≡ w.calls → g w' ≡ g w
  pub unseen :
      (c : Call) → IsQuiet c → (w : World) → g (record w { calls = w.calls ++ c ∷ [] }) ≡ g w

pub OfCalls-Blind : {B : Type 0} {g : World → B} → OfCalls g → Blind g
OfCalls-Blind b = record { quiet = b.unseen; objects = λ m o w. b.same w (set_machine m o w) refl }

pub deletes-OfCalls : OfCalls deletes
deletes-OfCalls = record { same = λ w w' e. ap (count is_delete) e; unseen = quiet-deletes }

pub creates-OfCalls : OfCalls creates
creates-OfCalls = record { same = λ w w' e. ap (count is_create) e; unseen = quiet-creates }

module _ {B : Type 0} {g : World → B} (b : Blind g) where
  pub Frame-quiet : (k : Api) (c : Call) → IsQuiet c → Frame g (send k c)
  Frame-quiet k c q = Frame-send k c (b.quiet c q)

  pub Frame-object : (m : String) (o : Machine) → Frame g (modify (set_machine m o))
  Frame-object m o = Frame-modify (set_machine m o) (b.objects m o)

module _ {B : Type 0} {g : World → B} (b : Blind g) (u : Upstream) (k : Api) where
  set_up_to_date_condition-Frame : (m : String) → Frame g (set_up_to_date_condition u k m)
  unfolding set_up_to_date_condition
  set_up_to_date_condition-Frame m = search (frame_rules, Frame-quiet b, Frame-object b)

  pub set_up_to_date_machine_condition-Frame : Frame g (set_up_to_date_machine_condition u k)
  unfolding set_up_to_date_machine_condition
  set_up_to_date_machine_condition-Frame = search (frame_rules, set_up_to_date_condition-Frame)

  delete_left-Frame : (m : String) → Frame g (delete_left u k m)
  unfolding delete_left
  delete_left-Frame m = search (frame_rules, Frame-quiet b, tt)

  check_conditions-Frame : (m : String) (cs : List Json) → Frame g (check_conditions u k m cs)
  unfolding check_conditions
  check_conditions-Frame m [] = search frame_rules
  check_conditions-Frame m (object c ∷ cs) =
      search (frame_rules, delete_left-Frame m, check_conditions-Frame m cs)
  check_conditions-Frame m (_ ∷ cs) = search frame_rules

  left_by_conditions-Frame :
      (m : String) (r : Result Error (Option (List Json))) → Frame g (left_by_conditions u k m r)
  unfolding left_by_conditions
  left_by_conditions-Frame m (err e) = search frame_rules
  left_by_conditions-Frame m (ok none) = search frame_rules
  left_by_conditions-Frame m (ok (some cs)) = check_conditions-Frame m cs

  left_by_member-Frame : (m : String) (r : Result ApiError Json) → Frame g (left_by_member u k m r)
  unfolding left_by_member
  left_by_member-Frame m (err not_found) = search frame_rules
  left_by_member-Frame m (err (refused t)) = search frame_rules
  left_by_member-Frame m (ok member) = left_by_conditions-Frame m _

  check_machine_left-Frame : (m : String) (c : Bool) → Frame g (check_machine_left u k m c)
  unfolding check_machine_left
  check_machine_left-Frame m false = search frame_rules
  check_machine_left-Frame m true = search (frame_rules, left_by_member-Frame)

  or_mark_control_node-Frame :
      (m : String) (o : Option ApiError) → Frame g (or_mark_control_node u k m o)
  unfolding or_mark_control_node
  or_mark_control_node-Frame m none = search frame_rules
  or_mark_control_node-Frame m (some e) = search (frame_rules, Frame-quiet b, tt)

  mark_child_control_node_to_leave-Frame :
      (m : String) (c : Bool) → Frame g (mark_child_control_node_to_leave u k m c)
  unfolding mark_child_control_node_to_leave
  mark_child_control_node_to_leave-Frame m false = search frame_rules
  mark_child_control_node_to_leave-Frame m true =
      search (frame_rules, Frame-quiet b, or_mark_control_node-Frame, tt)

  delete_control_node_object-Frame :
      (m : String) (c : Bool) → Frame g (delete_control_node_object u k m c)
  unfolding delete_control_node_object
  delete_control_node_object-Frame m false = search frame_rules
  delete_control_node_object-Frame m true = search (frame_rules, Frame-quiet b, tt)

  pub remove_pre_terminate_hook-Frame : (m : String) → Frame g (remove_pre_terminate_hook u k m)
  unfolding remove_pre_terminate_hook
  remove_pre_terminate_hook-Frame m = search (frame_rules, Frame-quiet b, Frame-object b)

  leave_once-Frame : (m : String) (c : Bool) → Frame g (leave_once u k m c)
  unfolding leave_once
  leave_once-Frame m c =
      search (frame_rules, mark_child_control_node_to_leave-Frame, check_machine_left-Frame)

  leave_by_clientset-Frame :
      (m : String) (r : Result Error Bool) → Frame g (leave_by_clientset u k m r)
  unfolding leave_by_clientset
  leave_by_clientset-Frame m (err e) = search frame_rules
  leave_by_clientset-Frame m (ok c) =
      search (frame_rules, leave_once-Frame, delete_control_node_object-Frame)

  leave_cluster-Frame : (m : String) → Frame g (leave_cluster u k m)
  unfolding leave_cluster
  leave_cluster-Frame m = search (frame_rules, leave_by_clientset-Frame)

  pub delete_k0s_node_resources-Frame : (m : String) → Frame g (delete_k0s_node_resources u k m)
  unfolding delete_k0s_node_resources
  delete_k0s_node_resources-Frame m =
      search (frame_rules, leave_cluster-Frame, remove_pre_terminate_hook-Frame)

-- A deletion is asked for whether it succeeds or not.
module _ (u : Upstream) (k : Api) where
  pub deletes-delete_machine_object :
      (m : String) (w : World) → deletes (delete_machine_object u k m w).1 ≡ deletes w + 1
  unfolding delete_machine_object ◌>>=◌
  deletes-delete_machine_object m w =
      ground (arith, count-append is_delete w.calls (delete_machine m ∷ []))

-- A deletion creates nothing.
module _ (u : Upstream) (k : Api) where
  send_delete-Frame : (m : String) → Frame creates (send k (delete_machine m))
  send_delete-Frame m =
      Frame-send k (delete_machine m)
        (λ w. omega (arith, count-append is_create w.calls (delete_machine m ∷ [])))

  pub creates-delete_machine_object : (m : String) → Frame creates (delete_machine_object u k m)
  unfolding delete_machine_object
  creates-delete_machine_object m = search (frame_rules, send_delete-Frame)
