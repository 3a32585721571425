-- ===== src/ControlPlane/Action/Frame.antt =====
-- What an action leaves alone, one rule for each way to build an action.
use k0smotron.Prelude.{
  ℕ, zero, suc, String, List, [], ◌∷◌, ◌++◌, Bool, true, false, Option, none, some, ◌≡◌, refl, ◌∙◌,
  if◌then◌else◌,
}
use k0smotron.Kube.{Call, Api, ApiError, not_found, refused, Error, Result, ok, err}
use k0smotron.ControlPlane.Scope.{World}
use k0smotron.ControlPlane.Action.{
  M, pure, fail, gets, modify, when, raise_option, unless_not_found, if_failed, send, continue,
  ◌>>=◌, attempt, outcome_of, with_context, deferring, errors_of, gather, polled, poll,
}

-- What `g` reads of the state is the same afterwards, whether the action returns or fails.
pub record Frame {A B : Type 0} (g : World → B) (m : M A) : Type 0 where
  pub at : (w : World) → g (m w).1 ≡ g w

module _ {B : Type 0} {g : World → B} where
  pub Frame-pure : {A : Type 0} (a : A) → Frame g (pure a)
  unfolding pure
  Frame-pure a = record { at = λ w. refl }

  pub Frame-fail : {A : Type 0} (e : Error) → Frame g (fail {A = A} e)
  unfolding fail
  Frame-fail e = record { at = λ w. refl }

  pub Frame-gets : {A : Type 0} (f : World → A) → Frame g (gets f)
  unfolding gets
  Frame-gets f = record { at = λ w. refl }

  pub Frame-raise_option : (o : Option Error) → Frame g (raise_option o)
  unfolding raise_option
  Frame-raise_option none = record { at = λ w. refl }
  Frame-raise_option (some e) = record { at = λ w. refl }

  pub Frame-unless_not_found :
      (o : Option ApiError) (f : ApiError → Error) → Frame g (unless_not_found o f)
  unfolding unless_not_found
  Frame-unless_not_found none f = record { at = λ w. refl }
  Frame-unless_not_found (some not_found) f = record { at = λ w. refl }
  Frame-unless_not_found (some (refused t)) f = record { at = λ w. refl }

  pub Frame-if_failed : (o : Option ApiError) (f : ApiError → Error) → Frame g (if_failed o f)
  unfolding if_failed
  Frame-if_failed none f = record { at = λ w. refl }
  Frame-if_failed (some e) f = record { at = λ w. refl }

  pub Frame-when : (b : Bool) {m : M Unit} → Frame g m → Frame g (when b m)
  unfolding when
  Frame-when true h = record { at = h.at }
  Frame-when false h = record { at = λ w. refl }

  pub Frame-if :
      {A : Type 0} (b : Bool) {m n : M A} → Frame g m → Frame g n → Frame g (if b then m else n)
  Frame-if true h k = h
  Frame-if false h k = k

  pub Frame-modify : (f : World → World) → ((w : World) → g (f w) ≡ g w) → Frame g (modify f)
  unfolding modify
  Frame-modify f h = record { at = h }

  pub Frame-send :
      (k : Api) (c : Call)
      → ((w : World) → g (record w { calls = w.calls ++ c ∷ [] }) ≡ g w)
      → Frame g (send k c)
  unfolding send
  Frame-send k c h = record { at = h }

  Frame-continue :
      {A C : Type 0} (r : Result Error A) {f : A → M C} (w : World)
      → ((a : A) → Frame g (f a))
      → g (continue r f w).1 ≡ g w
  Frame-continue (ok a) w h = (h a).at w
  Frame-continue (err e) w h = refl

  pub Frame-bind :
      {A C : Type 0} {m : M A} {f : A → M C}
      → Frame g m
      → ((a : A) → Frame g (f a))
      → Frame g (m >>= f)
  unfolding ◌>>=◌
  Frame-bind {m = m} h k = record { at = λ w. Frame-continue (m w).0 (m w).1 k ∙ h.at w }

  pub Frame-attempt : {A : Type 0} {m : M A} → Frame g m → Frame g (attempt m)
  unfolding attempt
  Frame-attempt h = record { at = h.at }

  pub Frame-outcome_of : {A : Type 0} {m : M A} → Frame g m → Frame g (outcome_of m)
  unfolding outcome_of
  Frame-outcome_of h = record { at = h.at }

  pub Frame-with_context :
      {A : Type 0} (f : Error → Error) {m : M A} → Frame g m → Frame g (with_context f m)
  unfolding with_context
  Frame-with_context f h = record { at = h.at }

  pub Frame-errors_of : {m : M Unit} → Frame g m → Frame g (errors_of m)
  unfolding errors_of
  Frame-errors_of h = record { at = h.at }

  pub Frame-deferring :
      {A : Type 0} {d : M Unit} {m : M A} → Frame g d → Frame g m → Frame g (deferring d m)
  unfolding deferring
  Frame-deferring {m = m} h k = record { at = λ w. h.at (m w).1 ∙ k.at w }

  pub Frame-gather :
      (f : String → M (List Error)) (ms : List String)
      → ((m : String) → Frame g (f m))
      → Frame g (gather f ms)
  unfolding gather
  Frame-gather f [] h = Frame-pure []
  Frame-gather f (m ∷ ms) h =
      Frame-bind (h m) (λ es. Frame-bind (Frame-gather f ms h) (λ rest. Frame-pure (es ++ rest)))

  Frame-polled :
      (r : Result Error Bool) {again : M Unit} (w : World)
      → Frame g again
      → g (polled r again w).1 ≡ g w
  Frame-polled (err e) w h = refl
  Frame-polled (ok true) w h = refl
  Frame-polled (ok false) w h = h.at w

  pub Frame-poll : (n : ℕ) {f : M Bool} → Frame g f → Frame g (poll n f)
  unfolding poll
  Frame-poll zero h = record { at = λ w. refl }
  Frame-poll (suc n) {f} h = record {
    at = λ w. Frame-polled (f w).0 (f w).1 (Frame-poll n h) ∙ h.at w;
  }

pub ruleset frame_rules = (
  Frame-pure, Frame-fail, Frame-gets, Frame-raise_option, Frame-unless_not_found, Frame-if_failed,
  Frame-when, Frame-if, Frame-bind, Frame-attempt, Frame-outcome_of, Frame-with_context,
  Frame-errors_of, Frame-deferring, Frame-gather, Frame-poll,
)
