-- ===== src/Bootstrap/Args.antt =====
-- Readings of a K0sConfigSpec: api/bootstrap/v1beta2/k0s_types.go.
pub mod Worker
use k0smotron.Prelude.{
  ℕ, String, List, [], ◌∷◌, Bool, true, false, ◌&&◌, ◌||◌, not, ◌==◌, Option, none, some,
  if◌then◌else◌, cut,
}
use k0smotron.Kube.{K0sConfigSpec}

-- strconv.ParseBool: the error, or the value.
unfoldable pub parse_bool : String → Option Bool
parse_bool s =
    if s == "1" || s == "t" || s == "T" || s == "TRUE" || s == "true" || s == "True"
    then some true
    else if s == "0" || s == "f" || s == "F" || s == "FALSE" || s == "false" || s == "False"
    then some false
    else none

abbrev is_true_value : Option Bool → Bool
is_true_value (some b) = b
is_true_value none = false

-- What one argument says: the name, the value, and whether there is a value.
unfoldable pub arg_enables_worker : String × Bool × String → Bool
unfolding parse_bool
arg_enables_worker (name, has_value, value) =
    (name == "--enable-worker" || name == "--single")
    && (if not has_value then true else is_true_value (parse_bool value))

-- The loop of WorkerEnabled.
unfoldable pub args_enable_worker : List String → Bool
args_enable_worker [] = false
args_enable_worker (a ∷ as') =
    let rest = args_enable_worker as' in if arg_enables_worker (cut b'=' a) then true else rest

-- (*K0sConfigSpec).WorkerEnabled, on a pointer
unfoldable pub worker_enabled : Option K0sConfigSpec → Bool
unfolding args_enable_worker
worker_enabled none = false
worker_enabled (some spec) = args_enable_worker spec.args
