-- ===== src/ControlPlane/Hooks.antt =====
-- The hooks that an object waits for: pendingHooks, hasPendingHook and markHookPending in
-- internal/controller/controlplane/inplace.go. A set of texts is a list, read by its members.
pub mod Tracking
use Prim.Native.Char.{Char, char}
use k0smotron.Prelude.{
  String, List, ◌∷◌, Bool, unwrap_or, has, without, StringMap, lookup, insert, split, join,
}
use k0smotron.Kube.{Upstream}

-- runtimev1.PendingHooksAnnotation
abbrev pub pending_hooks_annotation : String
pending_hooks_annotation = "runtime.cluster.x-k8s.io/pending-hooks"

abbrev pub comma : Char
comma = char b',' tt

unfoldable pub pending_hooks : StringMap → List String
pending_hooks annotations =
    without "" (split b',' (unwrap_or (lookup pending_hooks_annotation annotations) ""))

unfoldable pub has_pending_hook : StringMap → String → Bool
unfolding pending_hooks
has_pending_hook annotations hook = has hook (pending_hooks annotations)

unfoldable pub mark_hook_pending : Upstream → String → StringMap → StringMap
unfolding pending_hooks
mark_hook_pending u hook annotations =
    insert pending_hooks_annotation (join comma (u.sorted_set (hook ∷ pending_hooks annotations)))
      annotations
