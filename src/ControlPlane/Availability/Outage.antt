-- ===== src/ControlPlane/Availability/Outage.antt =====
-- When an outage is reported.
use k0smotron.Prelude.{
  ℕ, ◌+◌, ◌≤◌, String, List, [], ◌∷◌, Bool, false, ◌&&◌, ◌||◌, Option, none, some, ◌≡◌, refl, ap,
  sym, ◌∙◌, arith, any, leb, ==_self,
}
use k0smotron.Kube.{Upstream, ConditionLaws, Condition, condition_true, Kcp}
use k0smotron.ControlPlane.Availability.{
  Memory, is_down, available, availability_grace_period, availability_condition, first_failure,
  next_failures, set_kcp_condition, set_unavailable_after_grace_period, down_condition,
}

module _ (u : Upstream) (cause_text : String → String) (since_text : ℕ → String) where
  -- Failing reads at the given times, with their causes.
  abbrev pub after_failures : List (ℕ × String) → Memory × Kcp → Memory × Kcp
  after_failures [] mk = mk
  after_failures (t ∷ ts) mk =
      after_failures ts (set_unavailable_after_grace_period u cause_text since_text t.0 t.1 mk)

  -- Whether the control plane is reported as not available.
  abbrev pub is_reported_down : Kcp → Bool
  is_reported_down kcp = is_down (u.get_condition kcp.status.conditions available)

  condition-is_down :
      (e : Option Condition) (now since grace seen : ℕ) (cause : String) (t : ℕ)
      → let c = availability_condition u cause_text since_text e now since grace seen cause in
        (is_down (some (record c { last_transition = t }))
          ≡ (is_down e || (leb 2 seen && leb (since + grace) now)))
        × (c.kind ≡ available)
  unfolding availability_condition down_condition
  condition-is_down e now since grace seen cause t = ground arith

  module _ (laws : ConditionLaws u) where
    set-is_down :
        (kcp : Kcp) (e : Option Condition) (now since grace seen : ℕ) (cause : String)
        → let c = availability_condition u cause_text since_text e now since grace seen cause in
          is_reported_down (set_kcp_condition u cause_text since_text c kcp)
          ≡ (is_down e || (leb 2 seen && leb (since + grace) now))
    unfolding set_kcp_condition
    set-is_down kcp e now since grace seen cause =
        let c = availability_condition u cause_text since_text e now since grace seen cause in
        let (t, found) = laws.get_set kcp.status.conditions c in
        let (down, named) = condition-is_down e now since grace seen cause t in
        ap is_down
          (ap (u.get_condition (u.set_condition kcp.status.conditions c)) (sym named) ∙ found)
        ∙ down

    -- The window is open since `since`, and `seen` failures were seen.
    IsOpen : ℕ → ℕ → Memory × Kcp → Type 0
    IsOpen since seen (memory, kcp) = memory kcp.uid ≡ some (record { since = since; seen = seen })

    step-IsOpen :
        (since seen : ℕ) (mk : Memory × Kcp) (now : ℕ) (cause : String)
        → IsOpen since seen mk
        → IsOpen since
            (seen + 1)
            (set_unavailable_after_grace_period u cause_text since_text now cause mk)
    unfolding set_unavailable_after_grace_period IsOpen next_failures set_kcp_condition
    step-IsOpen since seen mk now cause h = rw h (ground (arith, ==_self mk.1.uid))

    step-is_down :
        (since seen : ℕ) (mk : Memory × Kcp) (now : ℕ) (cause : String)
        → IsOpen since seen mk
        → is_reported_down
            (set_unavailable_after_grace_period u cause_text since_text now cause mk).1
          ≡ (is_reported_down mk.1
              || (leb 2 (seen + 1) && leb (since + availability_grace_period) now))
    unfolding set_unavailable_after_grace_period IsOpen next_failures
    step-is_down since seen mk now cause h = rw h (set-is_down mk.1 _ now since _ (seen + 1) cause)

    abbrev pub is_late : ℕ → ℕ × String → Bool
    is_late since t = leb (since + availability_grace_period) t.0

    open_outage :
        (since seen : ℕ) (ts : List (ℕ × String)) (mk : Memory × Kcp)
        → 1 ≤ seen
        → IsOpen since seen mk
        → is_reported_down (after_failures ts mk).1
          ≡ (is_reported_down mk.1 || any (is_late since) ts)
    open_outage since seen [] mk h o = ground arith
    open_outage since seen (t ∷ ts) mk h o =
        let rest =
          open_outage since (seen + 1) ts _ (omega arith) (step-IsOpen since seen mk t.0 t.1 o) in
        let here = step-is_down since seen mk t.0 t.1 o in rest ∙ rw here (ground arith)

    -- Neither down nor in a window that a condition has kept.
    abbrev IsSettled : Memory × Kcp → Type 0
    IsSettled (memory, kcp) =
        (memory kcp.uid ≡ none)
        × ((c : Condition) × (u.get_condition kcp.status.conditions available ≡ some c)
            × (c.status ≡ condition_true))

    first-IsOpen :
        (mk : Memory × Kcp) (now : ℕ) (cause : String)
        → IsSettled mk
        → IsOpen now 1 (set_unavailable_after_grace_period u cause_text since_text now cause mk)
    unfolding set_unavailable_after_grace_period IsOpen next_failures set_kcp_condition
    first-IsOpen mk now cause (e, (c, g, s)) = rw (e, g, s) (ground (arith, ==_self mk.1.uid))

    settled-first :
        (c : Condition) (created now : ℕ)
        → c.status ≡ condition_true
        → (first_failure u cause_text since_text (some c) created now
            ≡ record { since = now; seen = 1 })
          × (is_down (some c) ≡ false)
    unfolding first_failure
    settled-first c created now s = (rw s refl, rw s refl)

    first-is_down :
        (mk : Memory × Kcp) (now : ℕ) (cause : String)
        → IsSettled mk
        → is_reported_down
            (set_unavailable_after_grace_period u cause_text since_text now cause mk).1
          ≡ false
    unfolding set_unavailable_after_grace_period next_failures
    first-is_down mk now cause (e, (c, g, s)) =
        let (first, up) = settled-first c mk.1.created now s in
        rw (e, g, first)
          (set-is_down mk.1 (some c) now now availability_grace_period 1 cause
            ∙ rw up (ground arith))

    -- From a control plane that is available and has not failed, failing reads report an outage
    -- exactly when one behind the first comes at least the grace period after the first.
    pub outage_window :
        (mk : Memory × Kcp) (t : ℕ × String) (ts : List (ℕ × String))
        → IsSettled mk
        → is_reported_down (after_failures (t ∷ ts) mk).1 ≡ any (is_late t.0) ts
    outage_window mk t ts h =
        open_outage t.0 1 ts _ (omega arith) (first-IsOpen mk t.0 t.1 h)
        ∙ rw (first-is_down mk t.0 t.1 h) refl
