-- ===== src/FeatureGates.antt =====
-- Feature gates: internal/featuregate/featuregate.go and features.go. A gate that is not in the map
-- is off.
pub mod Parsing
use Prim.Native.Nat.{ℕ}
use Prim.Native.Char.{Char, code}
use Prim.Native.String.{String as Text}
use k0smotron.Prelude.{
  String, List, [], ◌∷◌, Bool, true, false, ◌||◌, ◌==◌, Option, none, some, nat_eq, leb, ◌&&◌,
  if◌then◌else◌, split, cut, unwrap_or,
}
use k0smotron.Bootstrap.Args.{parse_bool}
use k0smotron.Kube.{Error, plain, Result, ok, err, and_then}

-- A map from the names of features to their states, each name once.
abbrev pub Gates : Type 0
Gates = List (String × Bool)

unfoldable pub gate_of : String → Gates → Option Bool
gate_of name [] = none
gate_of name (g ∷ gs) = let later = gate_of name gs in if g.0 == name then some g.1 else later

-- m[name] = enabled
unfoldable pub set_gate : String → Bool → Gates → Gates
set_gate name enabled [] = (name, enabled) ∷ []
set_gate name enabled (g ∷ gs) =
    let later = set_gate name enabled gs in if g.0 == name then (name, enabled) ∷ gs else g ∷ later

abbrev pub default_feature_map : Gates
default_feature_map = ("CloudInitVars", false) ∷ ("InPlaceUpdates", false) ∷ []

unfoldable pub is_enabled : Gates → String → Bool
unfolding gate_of
is_enabled gates feature = unwrap_or (gate_of feature gates) false

-- unicode.IsSpace, of a code point
unfoldable pub is_space : ℕ → Bool
is_space c =
    (nat_eq c 32 || leb 9 c && leb c 13)
    || ((nat_eq c 133 || (nat_eq c 160 || nat_eq c 5760))
        || (leb 8192 c && leb c 8202
            || ((nat_eq c 8232 || nat_eq c 8233)
                || (nat_eq c 8239 || (nat_eq c 8287 || nat_eq c 12288)))))

unfoldable pub trim_left : String → String
unfolding is_space
trim_left String.[] = String.[]
trim_left (String.◌∷◌ c s) =
    let rest = trim_left s in if is_space (code c) then rest else String.◌∷◌ c s

-- A space is kept when something stands behind it.
unfoldable pub trim_right : String → String
unfolding is_space
trim_right String.[] = String.[]
trim_right (String.◌∷◌ c s) =
    let rest = trim_right s in
    if is_space (code c)
    then (if rest == "" then String.[] else String.◌∷◌ c rest)
    else String.◌∷◌ c rest

-- strings.TrimSpace(s)
unfoldable pub trim_space : String → String
unfolding trim_left trim_right
trim_space s = trim_right (trim_left s)

-- The end of the loop's body.
unfoldable pub value_of : String → String → Option Bool → Result Error (String × Bool)
value_of key value none = err (plain ("invalid feature gate value" ∷ value ∷ "for key" ∷ key ∷ []))
value_of key value (some enabled) = ok (key, enabled)

-- One pair of the list.
unfoldable pub parse_pair : String → Result Error (String × Bool)
unfolding value_of
parse_pair pair =
    let parts = cut b'=' pair in
    let key = trim_space parts.0 in
    let value = trim_space parts.2 in
    if parts.1
    then (if key == ""
        then err (plain ("empty feature gate key in" ∷ pair ∷ []))
        else value_of key value (parse_bool value))
    else err (plain ("invalid feature gate format" ∷ pair ∷ []))

-- The loop; a later pair of the same name takes the place of an earlier one.
unfoldable pub parse_pairs : List String → Gates → Result Error Gates
parse_pairs [] gates = ok gates
parse_pairs (p ∷ ps) gates = and_then (parse_pair p) (λ g. parse_pairs ps (set_gate g.0 g.1 gates))

unfoldable pub parse_feature_gate_flags : String → Result Error Gates
unfolding parse_pairs
parse_feature_gate_flags flag = if flag == "" then ok [] else parse_pairs (split b',' flag) []

-- What is set for a feature that is there, and the rest.
unfoldable pub set_if_known : String → Bool → Gates → Option Bool → Result Error Unit × Gates
set_if_known name enabled gates none = (err (plain ("unknown feature gate" ∷ name ∷ [])), gates)
set_if_known name enabled gates (some _) = (ok tt, set_gate name enabled gates)

unfoldable pub apply_next :
    Result Error Unit × Gates → (Gates → Result Error Unit × Gates) → Result Error Unit × Gates
apply_next (ok _, gates) next = next gates
apply_next (err e, gates) next = (err e, gates)

-- The loop over the parsed gates, in the order in which the map gives them.
unfoldable pub apply : Gates → Gates → Result Error Unit × Gates
unfolding set_if_known apply_next
apply [] gates = (ok tt, gates)
apply (g ∷ gs) gates = apply_next (set_if_known g.0 g.1 gates (gate_of g.0 gates)) (apply gs)

unfoldable pub configure_parsed : Gates → Result Error Gates → Result Error Unit × Gates
configure_parsed gates (err e) = (err e, gates)
configure_parsed gates (ok parsed) = apply parsed gates

-- The result, and the gates that are in effect afterwards.
unfoldable pub configure : String → String → Gates → Result Error Unit × Gates
unfolding configure_parsed
configure flag env_var gates =
    configure_parsed gates (parse_feature_gate_flags (if env_var == "" then flag else env_var))
