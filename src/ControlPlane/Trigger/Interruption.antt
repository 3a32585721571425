-- ===== src/ControlPlane/Trigger/Interruption.antt =====
-- A trigger that stops part way leaves a Machine that the next reconciliation finds.
use k0smotron.Prelude.{
  String, subst, List, [], ◌∷◌, ◌++◌, true, false, none, some, ◌≡◌, ◌≢◌, ◌⊎◌, inl, inr, refl, sym,
  ap, ◌∙◌, ==_self, eq_iff, has_key-insert, lookup-insert, lookup-insert_self, IsFree, arith,
  Bool-cases, Option-cases,
}
use k0smotron.Kube.{
  Upstream, SetLaws, Api, ApiError, Error, Result, ok, err, Machine, InfraMachine, ControllerConfig,
  patch_machine, patch_infra, patch_config,
}
use k0smotron.ControlPlane.Scope.{World, set_machine}
use k0smotron.ControlPlane.Action.{M, ◌>>=◌, modify, send}
use k0smotron.ControlPlane.Action.Frame.{Frame, Frame-send, Frame-modify, frame_rules}
use k0smotron.ControlPlane.Action.Rules.{bind_outcome}
use k0smotron.ControlPlane.Hooks.{
  pending_hooks_annotation, pending_hooks, has_pending_hook, mark_hook_pending,
}
use k0smotron.ControlPlane.Hooks.Tracking.{mark_hook_pending_adds}
use k0smotron.ControlPlane.Machines.Server.{stored, stored-snoc}
use k0smotron.ControlPlane.Trigger.{
  update_in_progress, is_latched, latched, set_infra, set_config, is_interrupted, patch_from,
  latch_machine, latch_infra, latch_config, mark_machine, trigger_capi_inplace_version_update,
}

-- A Machine changed in the table, and its patch sent.
abbrev sent : String → Machine → World → World
sent m x w = let w' = set_machine m x w in record w' { calls = w.calls ++ patch_machine x ∷ [] }

-- After a failure the Machine is as it was, or it is one that machinesToCompleteTrigger finds.
-- After success it is latched and waits for the hook, at the version asked for.
abbrev pub IsStarted : String → String → Machine → Machine → Result Error Unit → Type 0
IsStarted hook version before after (ok _) =
    (is_latched after.annotations ≡ true)
    × (has_pending_hook after.annotations hook ≡ true)
    × (after.version ≡ version)
IsStarted hook version before after (err e) = (after ≡ before) ⊎ (is_interrupted hook after ≡ true)

latched-is_latched : (a : List (String × String)) → is_latched (latched a) ≡ true
latched-is_latched a = rw (lookup-insert_self update_in_progress "" a) refl

-- The latch is not a hook.
latched-pending :
    (hook : String) (a : List (String × String))
    → has_pending_hook (latched a) hook ≡ has_pending_hook a hook
unfolding has_pending_hook pending_hooks
latched-pending hook a = rw (lookup-insert update_in_progress pending_hooks_annotation "" a) refl

marked-is_latched :
    (u : Upstream) (hook : String) (a : List (String × String))
    → is_latched a ≡ true
    → is_latched (mark_hook_pending u hook a) ≡ true
unfolding mark_hook_pending
marked-is_latched u hook a h = has_key-insert pending_hooks_annotation update_in_progress _ a h

-- By the answer to the patch.
patch_from-outcome :
    (u : Upstream) (k : Api) (hook m : String) (P : Result Error Unit → World → Type 0)
    → (x : Machine) (w : World)
    → (k.reply w.calls (patch_machine x) ≡ none → P (ok tt) (sent m x w))
    → ((a : ApiError) (e : Error)
        → k.reply w.calls (patch_machine x) ≡ some a
        → P (err e) (sent m x w))
    → P (patch_from u k hook m x w).0 (patch_from u k hook m x w).1
unfolding patch_from ◌>>=◌
patch_from-outcome u k hook m P x w good bad =
    elim (Option-cases (k.reply w.calls (patch_machine x))) [
      | inl e ↦ rw e (good e)
      | inr (a, e) ↦ rw e (bad a _ e)
    ]

-- `o` is the Machine before all requests.
module _ (u : Upstream) (k : Api) (hook m : String) (o : Machine) where
  -- The server and the table have the same Machine.
  IsSynced : World → Type 0
  IsSynced w = (stored k m o w.calls ≡ w.machines m) × ((w.machines m).name ≡ m)

  table : (x : Machine) (w : World) → (sent m x w).machines m ≡ x
  table x w = rw (==_self m) refl

  sent-IsSynced :
      (x : Machine) (w : World)
      → x.name ≡ m
      → k.reply w.calls (patch_machine x) ≡ none
      → IsSynced (sent m x w)
  unfolding IsSynced
  sent-IsSynced x w n e = (
    stored-snoc k m o w.calls (patch_machine x) ∙ ground (arith, e, eq_iff x.name m, ==_self m, n),
    ground (arith, n, ==_self m),
  )

  refused-stored :
      (x : Machine) (w : World) (a : ApiError)
      → k.reply w.calls (patch_machine x) ≡ some a
      → stored k m o (sent m x w).calls ≡ stored k m o w.calls
  refused-stored x w a e = stored-snoc k m o w.calls (patch_machine x) ∙ ground (arith, e)

  -- The hook is what is left to do.
  IsReady : World → Type 0
  IsReady w =
      IsSynced w
      × (is_latched (w.machines m).annotations ≡ true)
      × (has_pending_hook (w.machines m).annotations hook ≡ false)

  -- After the first step.
  IsLatched : Machine → Result Error Unit → World → Type 0
  IsLatched before (ok _) w = IsReady w
  IsLatched before (err e) w = stored k m o w.calls ≡ before

  latch_machine-IsLatched :
      (w : World)
      → IsSynced w
      → has_pending_hook (w.machines m).annotations hook ≡ false
      → IsLatched (w.machines m) (latch_machine u k hook m w).0 (latch_machine u k hook m w).1
  unfolding latch_machine ◌>>=◌ IsLatched IsReady IsSynced
  latch_machine-IsLatched w sync free =
      let before = w.machines m in
      let x = record before { annotations = latched before.annotations } in
      elim (Bool-cases (is_latched before.annotations)) [
        | inl e ↦ rw e (sync, e, free)
        | inr e ↦ rw e (
            patch_from-outcome u k hook m (IsLatched before) x w
              (λ r. (
                sent-IsSynced x w sync.1 r,
                rw (==_self m) (latched-is_latched before.annotations),
                rw (==_self m) (latched-pending hook before.annotations ∙ free),
              ))
              (λ a err' r. refused-stored x w a r ∙ sync.0))
      ]

  -- What the trigger does to the Machine on the server.
  Started : String → Machine → Result Error Unit → World → Type 0
  Started version before r w = IsStarted hook version before (stored k m o w.calls) r

  IsReady-interrupted : (w : World) → IsReady w → is_interrupted hook (stored k m o w.calls) ≡ true
  unfolding IsReady IsSynced is_interrupted
  IsReady-interrupted w h = rw h.0.0 (ground (arith, h.1, h.2))

  -- After an action that is not about the Machine.
  ready_then :
      (version : String) (before : Machine) {a : M Unit} (f : Unit → M Unit) (w : World)
      → Frame (λ w. stored k m o w.calls) a
      → Frame (λ w. w.machines m) a
      → IsReady w
      → ((w' : World) → IsReady w' → Started version before (f tt w').0 (f tt w').1)
      → Started version before ((a >>= f) w).0 ((a >>= f) w).1
  unfolding IsReady IsSynced Started
  ready_then version before {a = a} f w fs fm h next =
      let same = fm.at w in
      let ready : IsReady (a w).1 = (
        (fs.at w ∙ h.0.0 ∙ sym same, ap (λ z. z.name) same ∙ h.0.1),
        ap (λ z. is_latched z.annotations) same ∙ h.1,
        ap (λ z. has_pending_hook z.annotations hook) same ∙ h.2,
      ) in
      bind_outcome (Started version before) a f w (λ r e. next (a w).1 ready)
        (λ e e'. inr (IsReady-interrupted (a w).1 ready))

  stored-infra :
      (i : InfraMachine) (w : World)
      → stored k m o (w.calls ++ patch_infra i ∷ []) ≡ stored k m o w.calls
  stored-infra i w = stored-snoc k m o w.calls (patch_infra i)

  stored-config :
      (c : ControllerConfig) (w : World)
      → stored k m o (w.calls ++ patch_config c ∷ []) ≡ stored k m o w.calls
  stored-config c w = stored-snoc k m o w.calls (patch_config c)

  latch_infra-Frame :
      {B : Type 0} (g : World → B) (i : InfraMachine)
      → ((j : InfraMachine) → Frame g (modify (set_infra m j)))
      → ((j : InfraMachine) → Frame g (send k (patch_infra j)))
      → Frame g (latch_infra u k hook m i)
  unfolding latch_infra
  latch_infra-Frame g i hs hc = search (frame_rules, hs, hc)

  latch_config-Frame :
      {B : Type 0} (g : World → B) (c : ControllerConfig)
      → ((d : ControllerConfig) → Frame g (modify (set_config m d)))
      → ((d : ControllerConfig) → Frame g (send k (patch_config d)))
      → Frame g (latch_config u k hook m c)
  unfolding latch_config
  latch_config-Frame g c hs hc = search (frame_rules, hs, hc)

  module _ (l : SetLaws u) (named : hook ≢ "") (free : IsFree b',' hook) where
    mark_machine-Started :
        (version : String) (before : Machine) (w : World)
        → IsReady w
        → Started version before
            (mark_machine u k hook version m w).0
            (mark_machine u k hook version m w).1
    unfolding mark_machine ◌>>=◌ Started IsReady IsSynced
    mark_machine-Started version before w h =
        let old = w.machines m in
        let x = record old {
          version = version;
          annotations = mark_hook_pending u hook old.annotations;
        } in
        let pending = mark_hook_pending_adds u l hook old.annotations hook named free in
        rw h.2 (
          patch_from-outcome u k hook m (Started version before) x w
            (λ r.
              let same = (sent-IsSynced x w h.0.1 r).0 ∙ table x w in
              (
                ap (λ z. is_latched z.annotations) same
                    ∙ marked-is_latched u hook old.annotations h.1,
                ap (λ z. has_pending_hook z.annotations hook) same
                    ∙ pending
                    ∙ rw (==_self hook) refl,
                ap (λ z. z.version) same,
              ))
            (λ a e r. inr (rw (refused-stored x w a r) (IsReady-interrupted w h))))

    -- A trigger for a Machine that does not wait for the hook yet, and that the server has as it
    -- stands in the table: if it succeeds, the server's Machine is latched, waits for the hook and
    -- has the version asked for; if it fails, the server's Machine is as it was, or is one that
    -- machinesToCompleteTrigger selects. The hook's name is not empty and has no comma in it.
    pub trigger_outcome :
        (version : String) (i : InfraMachine) (c : ControllerConfig) (w : World)
        → stored k m o w.calls ≡ w.machines m
        → (w.machines m).name ≡ m
        → has_pending_hook (w.machines m).annotations hook ≡ false
        → let (r, w') = trigger_capi_inplace_version_update u k hook version m i c w in
          IsStarted hook version (w.machines m) (stored k m o w'.calls) r
    unfolding trigger_capi_inplace_version_update IsLatched Started IsSynced
    trigger_outcome version i c w sync named' quiet =
        let before = w.machines m in
        let first = latch_machine-IsLatched w (sync, named') quiet in
        bind_outcome (Started version before) (latch_machine u k hook m) _ w
          (λ r e.
            ready_then version before _ (latch_machine u k hook m w).1
              (latch_infra-Frame _ i (λ j. Frame-modify (set_infra m j) (λ w. refl))
                (λ j. Frame-send k (patch_infra j) (stored-infra j)))
              (latch_infra-Frame _ i (λ j. Frame-modify (set_infra m j) (λ w. refl))
                (λ j. Frame-send k (patch_infra j) (λ w. refl)))
              (subst (λ z. IsLatched before z (latch_machine u k hook m w).1) e first)
              λ w1 h1.
                ready_then version before _ w1
                  (latch_config-Frame _ c (λ j. Frame-modify (set_config m j) (λ w. refl))
                    (λ j. Frame-send k (patch_config j) (stored-config j)))
                  (latch_config-Frame _ c (λ j. Frame-modify (set_config m j) (λ w. refl))
                    (λ j. Frame-send k (patch_config j) (λ w. refl)))
                  h1 λ w2 h2. mark_machine-Started version before w2 h2)
          (λ e eq. inl (subst (λ z. IsLatched before z (latch_machine u k hook m w).1) eq first))
