-- ===== src/ControlPlane/Action.antt =====
-- Code that may change the struct, the shared objects and the clusters, and that may return an
-- error. What was changed before an error stays changed.
pub mod Frame
pub mod Rules
pub mod Returns
use k0smotron.Prelude.{
  ℕ, zero, suc, String, List, [], ◌∷◌, ◌++◌, Bool, true, false, Option, none, some,
}
use k0smotron.Kube.{
  Call, Api, ApiError, not_found, refused, Error, api, plain, wrap, fault, Result, ok, err,
}
use k0smotron.ControlPlane.Scope.{World}

abbrev pub M : Type 0 → Type 0
M A = World → Result Error A × World

pub pure : {A : Type 0} → A → M A
pure a w = (ok a, w)

pub fail : {A : Type 0} → Error → M A
fail e w = (err e, w)

pub gets : {A : Type 0} → (World → A) → M A
gets f w = (ok (f w), w)

pub modify : (World → World) → M Unit
modify f w = (ok tt, f w)

pub when : Bool → M Unit → M Unit
when true m w = m w
when false m w = (ok tt, w)

-- A returned `error` that may be nil.
pub raise_option : Option Error → M Unit
raise_option none w = (ok tt, w)
raise_option (some e) w = (err e, w)

-- An error that is returned unless it is nil or a "not found".
pub unless_not_found : Option ApiError → (ApiError → Error) → M Unit
unless_not_found none f w = (ok tt, w)
unless_not_found (some not_found) f w = (ok tt, w)
unless_not_found (some (refused t)) f w = (err (f (refused t)), w)

pub if_failed : Option ApiError → (ApiError → Error) → M Unit
if_failed none f w = (ok tt, w)
if_failed (some e) f w = (err (f e), w)

-- Sends a write request; it is recorded whatever the answer is.
pub send : Api → Call → M (Option ApiError)
send k c w = (ok (k.reply w.calls c), record w { calls = w.calls ++ c ∷ [] })

abbrev pub continue : {A B : Type 0} → Result Error A → (A → M B) → M B
continue (ok a) f w = f a w
continue (err e) f w = (err e, w)

infixl 10 ◌>>=◌ ◌>>◌
-- Opening this opens the actions above too.
unfoldable pub ◌>>=◌ : {A B : Type 0} → M A → (A → M B) → M B
unfolding pure fail gets modify when raise_option unless_not_found if_failed send
◌>>=◌ m f w = let (r, w') = m w in continue r f w'

abbrev pub ◌>>◌ : {A B : Type 0} → M A → M B → M B
m >> n = m >>= λ _. n

-- A panic is not an error: it goes on past the code that looks at `err`.
abbrev pub caught : {A : Type 0} → Result Error A → Result Error (Result Error A)
caught (err fault) = err fault
caught r = ok r

-- The result of an action as a value: `x, err := f()` before code that looks at `err`.
unfoldable pub attempt : {A : Type 0} → M A → M (Result Error A)
attempt m w = let (r, w') = m w in (caught r, w')

-- The result of an action for a deferred function, which runs after a panic too.
unfoldable pub outcome_of : {A : Type 0} → M A → M (Result Error A)
outcome_of m w = let (r, w') = m w in (ok r, w')

abbrev pub map_error : {A : Type 0} → (Error → Error) → Result Error A → Result Error A
map_error f (ok a) = ok a
map_error f (err fault) = err fault
map_error f (err e) = err (f e)

-- fmt.Errorf("...: %w", err)
unfoldable pub with_context : {A : Type 0} → (Error → Error) → M A → M A
with_context f m w = let (r, w') = m w in (map_error f r, w')

-- A deferred call: it runs on every return, and its own error is only logged.
unfoldable pub deferring : {A : Type 0} → M Unit → M A → M A
deferring d m w = let (r, w') = m w in (r, (d w').1)

abbrev pub error_list : Result Error Unit → Result Error (List Error)
error_list (ok _) = ok []
error_list (err fault) = err fault
error_list (err e) = ok (e ∷ [])

-- The error of an action, as a slice.
unfoldable pub errors_of : M Unit → M (List Error)
errors_of m w = let (r, w') = m w in (error_list r, w')

-- A loop that gathers errors in a slice.
unfoldable pub gather : (String → M (List Error)) → List String → M (List Error)
unfolding ◌>>=◌
gather f [] = pure []
gather f (m ∷ ms) = do es ← f m; rest ← gather f ms; pure (es ++ rest)

-- Runs the condition at once and then at each interval, until it holds or fails, or the context
-- is done.
abbrev pub polled : Result Error Bool → M Unit → M Unit
polled (err e) again w = (err e, w)
polled (ok true) again w = (ok tt, w)
polled (ok false) again w = again w

unfoldable pub poll : ℕ → M Bool → M Unit
poll zero f w = (err (plain ("context deadline exceeded" ∷ [])), w)
poll (suc n) f w = let (r, w') = f w in polled r (poll n f) w'
