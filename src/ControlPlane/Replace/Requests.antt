-- ===== src/ControlPlane/Replace/Requests.antt =====
-- What a scale up asks the API server for.
use k0smotron.Prelude.{
  ℕ, ◌+◌, ◌≤◌, String, [], ◌∷◌, none, ◌≡◌, refl, arith, count-append, Option-cases, inl, inr,
  lookup, lookup-remove_self, ◌∙◌,
}
use k0smotron.Kube.{
  Upstream, VersionLib, Api, Error, Result, ok, InfraMachine, Machine, apply_machine,
}
use k0smotron.ControlPlane.Scope.{World}
use k0smotron.ControlPlane.Action.{M, ◌>>=◌}
use k0smotron.ControlPlane.Action.Frame.{Frame, frame_rules}
use k0smotron.ControlPlane.Action.Rules.{bind_outcome}
use k0smotron.ControlPlane.Machines.Effects.{
  deletes, creates, is_delete, is_create, deletes-Blind, creates-Blind,
}
use k0smotron.ControlPlane.Remediation.{remediation_in_progress}
use k0smotron.ControlPlane.Template.{Codec}
use k0smotron.ControlPlane.Template.Effects.{
  lift_result-Frame, create_machine_from_template-Frame, create_bootstrap_config-Frame,
}
use k0smotron.ControlPlane.Replace.{patch_machine_object, scale_up_with, scale_up}

-- At most one Machine more than before, none deleted; and if all went well one more, and no
-- remediation in progress.
abbrev pub IsOneMore : ℕ → ℕ → Result Error Unit → World → Type 0
IsOneMore c d r w =
    (deletes w ≡ d)
    × (creates w ≤ c + 1)
    × (r ≡ ok tt
        → (creates w ≡ c + 1) × (lookup remediation_in_progress w.scope.kcp.annotations ≡ none))

module _ (u : Upstream) (v : VersionLib) (c : Codec) (k : Api) (n d : ℕ) where
  -- No request about Machines yet.
  IsAt : World → Type 0
  IsAt w = (creates w ≡ n) × (deletes w ≡ d)

  patch_machine_object-IsOneMore :
      (o : Machine) (w : World)
      → IsAt w
      → IsOneMore n d (patch_machine_object u v c k o w).0 (patch_machine_object u v c k o w).1
  unfolding patch_machine_object ◌>>=◌ IsAt
  patch_machine_object-IsOneMore o w h =
      let made = count-append is_create w.calls (apply_machine o ∷ []) in
      let gone = count-append is_delete w.calls (apply_machine o ∷ []) in
      elim (Option-cases (k.reply w.calls (apply_machine o))) [
        | inl e ↦ rw e (
          omega (arith, gone),
          omega (arith, made),
          λ ok'. (
            omega (arith, made),
            lookup-remove_self remediation_in_progress w.scope.kcp.annotations,
          ),
        )
        | inr (a, e) ↦ rw e (omega (arith, gone), omega (arith, made), λ ok'. cc)
      ]

  -- After an action that is not about Machines.
  quiet_then :
      {A : Type 0} {m : M A} (f : A → M Unit) (w : World)
      → Frame creates m
      → Frame deletes m
      → IsAt w
      → ((a : A) (w' : World) → IsAt w' → IsOneMore n d (f a w').0 (f a w').1)
      → IsOneMore n d ((m >>= f) w).0 ((m >>= f) w).1
  unfolding IsAt
  quiet_then {m = m} f w fc fd h next =
      bind_outcome (IsOneMore n d) m f w (λ a e. next a (m w).1 (fc.at w ∙ h.0, fd.at w ∙ h.1))
        (λ e bad. (fd.at w ∙ h.1, omega (arith, fc.at w, h.0), λ e'. cc))

  scale_up_with-IsOneMore :
      (name : String) (infra : InfraMachine) (w : World)
      → IsAt w
      → IsOneMore n d (scale_up_with u v c k name infra w).0 (scale_up_with u v c k name infra w).1
  unfolding scale_up_with
  scale_up_with-IsOneMore name infra w h =
      quiet_then _ w (search frame_rules) (search frame_rules) h λ _ w1 h1.
        quiet_then _ w1 (lift_result-Frame creates-Blind _ _) (lift_result-Frame deletes-Blind _ _)
          h1
          λ o w2 h2.
            quiet_then _ w2 (lift_result-Frame creates-Blind _ _)
              (lift_result-Frame deletes-Blind _ _) h2
              λ config w3 h3.
                quiet_then _ w3 (search (frame_rules, create_bootstrap_config-Frame creates-Blind))
                  (search (frame_rules, create_bootstrap_config-Frame deletes-Blind)) h3
                  λ _ w4 h4. patch_machine_object-IsOneMore o w4 h4

here :
    (u : Upstream) (v : VersionLib) (c : Codec) (k : Api) (w : World)
    → IsAt u v c k (creates w) (deletes w) w
unfolding IsAt
here u v c k w = (refl, refl)

-- A scale up asks for at most one more Machine and deletes none; when it succeeds it has asked for
-- exactly one, and no remediation is in progress any more.
pub scale_up_requests :
    (u : Upstream) (v : VersionLib) (c : Codec) (k : Api) (w : World)
    → let (r, w') = scale_up u v c k w in IsOneMore (creates w) (deletes w) r w'
unfolding scale_up
scale_up_requests u v c k w =
    let n = creates w in
    let d = deletes w in
    quiet_then u v c k n d _ w (search frame_rules) (search frame_rules) (here u v c k w) λ _ w1 h1.
      quiet_then u v c k n d _ w1
        (search (frame_rules, create_machine_from_template-Frame creates-Blind))
        (search (frame_rules, create_machine_from_template-Frame deletes-Blind)) h1
        λ infra w2 h2. scale_up_with-IsOneMore u v c k n d _ infra w2 h2
