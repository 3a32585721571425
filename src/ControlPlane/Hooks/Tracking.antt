-- ===== src/ControlPlane/Hooks/Tracking.antt =====
-- What an object waits for after a hook was marked pending.
use k0smotron.Prelude.{
  String, List, [], ◌∷◌, true, false, ◌≡◌, ◌≢◌, ◌∙◌, ap, sym, if◌then◌else◌, ◌==◌, has, without,
  has-without, All, All-has, has-All, StringMap, lookup, lookup-insert_self, unwrap_or, split, join,
  IsFree, split-IsFree, split-join, arith, eq_iff, ==_self, Bool-cases, inl, inr, subst,
}
use k0smotron.Kube.{Upstream, SetLaws}
use k0smotron.ControlPlane.Hooks.{
  comma, pending_hooks_annotation, pending_hooks, has_pending_hook, mark_hook_pending,
}

module _ (u : Upstream) (l : SetLaws u) (hook : String) where
  -- Every pending hook is free of the separator.
  pending-IsFree :
      (annotations : StringMap) (a : String)
      → has a (pending_hooks annotations) ≡ true
      → IsFree b',' a
  unfolding pending_hooks
  pending-IsFree annotations a h =
      let pieces = split b',' (unwrap_or (lookup pending_hooks_annotation annotations) "") in
      has-All (IsFree b',') pieces a (split-IsFree b',' _)
        (ground (arith, h, has-without "" a pieces))

  member-IsFree :
      (annotations : StringMap)
      → IsFree b',' hook
      → (a : String) → has a (hook ∷ pending_hooks annotations) ≡ true
      → IsFree b',' a
  member-IsFree annotations free a h = elim (Bool-cases (hook == a)) [
    | inl same ↦ subst (IsFree b',') ((eq_iff hook a).0 same) free
    | inr differ ↦ pending-IsFree annotations a (ground (arith, h, differ))
  ]

  sorted-IsFree :
      (annotations : StringMap)
      → IsFree b',' hook
      → All (IsFree b',') (u.sorted_set (hook ∷ pending_hooks annotations))
  sorted-IsFree annotations free =
      All-has (IsFree b',') _
        λ a h. member-IsFree annotations free a (sym (l.sorted_set_member a _) ∙ h)

  -- A list with a member is read back.
  split-join_member :
      (a : String) (xs : List String)
      → has a xs ≡ true
      → All (IsFree b',') xs
      → split b',' (join comma xs) ≡ xs
  split-join_member a [] h free = cc
  split-join_member a (x ∷ xs) h free = split-join comma x xs free

  blank-is_not_pending : (annotations : StringMap) → has "" (pending_hooks annotations) ≡ false
  unfolding pending_hooks
  blank-is_not_pending annotations =
      has-without "" "" (split b',' (unwrap_or (lookup pending_hooks_annotation annotations) ""))

  marked-pending :
      (annotations : StringMap)
      → IsFree b',' hook
      → pending_hooks (mark_hook_pending u hook annotations)
        ≡ without "" (u.sorted_set (hook ∷ pending_hooks annotations))
  unfolding pending_hooks mark_hook_pending
  marked-pending annotations free =
      rw
        (lookup-insert_self pending_hooks_annotation
          (join comma (u.sorted_set (hook ∷ pending_hooks annotations))) annotations)
        (ap (without "") (
          split-join_member hook _ (l.sorted_set_member hook _ ∙ ground (arith, ==_self hook))
            (sorted-IsFree annotations free)))

  -- After a hook is marked pending, exactly it and those that were pending before are pending, if
  -- the hook's name is not empty and has no comma in it.
  pub mark_hook_pending_adds :
      (annotations : StringMap) (other : String)
      → hook ≢ ""
      → IsFree b',' hook
      → has_pending_hook (mark_hook_pending u hook annotations) other
        ≡ (if hook == other then true else has_pending_hook annotations other)
  unfolding has_pending_hook mark_hook_pending
  mark_hook_pending_adds annotations other named free =
      let marked = u.sorted_set (hook ∷ pending_hooks annotations) in
      ap (has other) (marked-pending annotations free)
      ∙ has-without "" other marked
      ∙ ground (
        arith,
        l.sorted_set_member other (hook ∷ pending_hooks annotations),
        blank-is_not_pending annotations,
        eq_iff "" other,
        eq_iff hook other,
        named,
      )
