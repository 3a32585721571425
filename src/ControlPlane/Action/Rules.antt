-- ===== src/ControlPlane/Action/Rules.antt =====
-- Rules for what holds of the state that an action leaves, whether it returns or fails.
use k0smotron.Prelude.{Bool, true, false, Option, none, some, ◌≡◌, refl}
use k0smotron.Kube.{ApiError, not_found, refused, Error, Result, ok, err}
use k0smotron.ControlPlane.Scope.{World}
use k0smotron.ControlPlane.Action.{
  M, when, raise_option, unless_not_found, if_failed, continue, ◌>>=◌,
}

module _ (P : World → Type 0) where
  pub when_post :
      (b : Bool) (m : M Unit) (w : World)
      → (b ≡ true → P (m w).1)
      → (b ≡ false → P w)
      → P (when b m w).1
  unfolding when
  when_post true m w yes' no' = yes' refl
  when_post false m w yes' no' = no' refl

  continue_post :
      {A B : Type 0} (r : Result Error A) (f : A → M B) (w : World)
      → ((a : A) → r ≡ ok a → P (f a w).1)
      → ((e : Error) → r ≡ err e → P w)
      → P (continue r f w).1
  continue_post (ok a) f w good bad = good a refl
  continue_post (err e) f w good bad = bad e refl

  pub bind_post :
      {A B : Type 0} (m : M A) (f : A → M B) (w : World)
      → ((a : A) → (m w).0 ≡ ok a → P (f a (m w).1).1)
      → ((e : Error) → (m w).0 ≡ err e → P (m w).1)
      → P ((m >>= f) w).1
  unfolding ◌>>=◌
  bind_post m f w good bad = continue_post (m w).0 f (m w).1 good bad

pub raise_option-world : (o : Option Error) (w : World) → (raise_option o w).1 ≡ w
unfolding raise_option
raise_option-world none w = refl
raise_option-world (some e) w = refl

pub unless_not_found-world :
    (o : Option ApiError) (f : ApiError → Error) (w : World) → (unless_not_found o f w).1 ≡ w
unfolding unless_not_found
unless_not_found-world none f w = refl
unless_not_found-world (some not_found) f w = refl
unless_not_found-world (some (refused t)) f w = refl

pub if_failed-world :
    (o : Option ApiError) (f : ApiError → Error) (w : World) → (if_failed o f w).1 ≡ w
unfolding if_failed
if_failed-world none f w = refl
if_failed-world (some e) f w = refl

module _ {B : Type 0} (P : Result Error B → World → Type 0) where
  continue_outcome :
      {A : Type 0} (r : Result Error A) (f : A → M B) (w : World)
      → ((a : A) → r ≡ ok a → P (f a w).0 (f a w).1)
      → ((e : Error) → r ≡ err e → P (err e) w)
      → P (continue r f w).0 (continue r f w).1
  continue_outcome (ok a) f w good bad = good a refl
  continue_outcome (err e) f w good bad = bad e refl

  pub bind_outcome :
      {A : Type 0} (m : M A) (f : A → M B) (w : World)
      → ((a : A) → (m w).0 ≡ ok a → P (f a (m w).1).0 (f a (m w).1).1)
      → ((e : Error) → (m w).0 ≡ err e → P (err e) (m w).1)
      → P ((m >>= f) w).0 ((m >>= f) w).1
  unfolding ◌>>=◌
  bind_outcome m f w good bad = continue_outcome (m w).0 f (m w).1 good bad
