-- ===== src/ControlPlane/Action/Returns.antt =====
-- What holds when an action returns a value, one rule for each way to build an action.
use k0smotron.Prelude.{Bool, true, false, ◌≡◌, refl, if◌then◌else◌}
use k0smotron.Kube.{Error, Result, ok, err}
use k0smotron.ControlPlane.Scope.{World}
use k0smotron.ControlPlane.Action.{M, pure, fail, gets, continue, ◌>>=◌, deferring}

-- Of a value and the state that is left; nothing is said of an error.
abbrev pub OnOk : {A : Type 0} → (A → World → Type 0) → Result Error A → World → Type 0
OnOk P (ok a) w = P a w
OnOk P (err e) w = Unit

pub record Returns {A : Type 0} (P : A → World → Type 0) (m : M A) : Type 0 where
  pub at : (w : World) → OnOk P (m w).0 (m w).1

deferred-OnOk :
    {A : Type 0} (P : A → World → Type 0) (d : M Unit) (r : Result Error A) (w : World)
    → ((a : A) → P a w → P a (d w).1)
    → OnOk P r w
    → OnOk P r (d w).1
deferred-OnOk P d (ok a) w keeps h = keeps a h
deferred-OnOk P d (err e) w keeps h = tt

module _ {A : Type 0} {P : A → World → Type 0} where
  pub Returns-pure : (a : A) → ((w : World) → P a w) → Returns P (pure a)
  unfolding pure
  Returns-pure a h = record { at = λ w. h w }

  pub Returns-fail : (e : Error) → Returns P (fail e)
  unfolding fail
  Returns-fail e = record { at = λ w. tt }

  continue-OnOk :
      {B : Type 0} (r : Result Error B) {f : B → M A} (w : World)
      → ((b : B) → Returns P (f b))
      → OnOk P (continue r f w).0 (continue r f w).1
  continue-OnOk (ok b) w h = (h b).at w
  continue-OnOk (err e) w h = tt

  pub Returns-bind :
      {B : Type 0} (m : M B) {f : B → M A} → ((b : B) → Returns P (f b)) → Returns P (m >>= f)
  unfolding ◌>>=◌
  Returns-bind m h = record { at = λ w. continue-OnOk (m w).0 (m w).1 h }

  -- Reading the state, and then returning.
  pub Returns-gets-pure :
      {B : Type 0} (g : World → B) (f : B → A)
      → ((w : World) → P (f (g w)) w)
      → Returns P (gets g >>= λ b. pure (f b))
  unfolding ◌>>=◌
  Returns-gets-pure g f h = record { at = h }

  pub Returns-if :
      (b : Bool) {m n : M A}
      → (b ≡ true → Returns P m)
      → (b ≡ false → Returns P n)
      → Returns P (if b then m else n)
  Returns-if true h k = h refl
  Returns-if false h k = k refl

  -- A deferred call that keeps what holds.
  pub Returns-deferring :
      (d : M Unit) (m : M A)
      → ((a : A) (w : World) → P a w → P a (d w).1)
      → Returns P m
      → Returns P (deferring d m)
  unfolding deferring
  Returns-deferring d m keeps h = record {
    at = λ w. deferred-OnOk P d (m w).0 (m w).1 (λ a. keeps a (m w).1) (h.at w);
  }
