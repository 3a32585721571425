-- ===== src/Prelude/Text.antt =====
-- Go's package strings, on texts as lists of characters. A separator is one character, given by
-- its code.
pub mod Splits
use Prim.Native.Nat.{ℕ}
use Prim.Native.Char.{Char, code}
use Prim.Native.String.{String}
use mathlib.Core.Path.{◌≡◌, refl}
use mathlib.Core.Bool.{Bool, true, false, ◌&&◌, ◌||◌}
use mathlib.Core.List.{List, [], ◌∷◌}
use k0smotron.Prelude.Tests.{if◌then◌else◌, nat_eq, ◌==◌}

-- Whether the second text begins with the first.
pub has_prefix : String → String → Bool
has_prefix String.[] t = true
has_prefix (String.◌∷◌ c s) String.[] = false
has_prefix (String.◌∷◌ c s) (String.◌∷◌ d t) = nat_eq (code c) (code d) && has_prefix s t

-- strings.Contains(s, sub)
unfoldable pub contains : String → String → Bool
unfolding has_prefix
contains String.[] sub = has_prefix sub String.[]
contains (String.◌∷◌ c s) sub = has_prefix sub (String.◌∷◌ c s) || contains s sub

push_char : Char → List String → List String
push_char c [] = String.◌∷◌ c String.[] ∷ []
push_char c (p ∷ ps) = String.◌∷◌ c p ∷ ps

-- strings.Split(s, sep)
unfoldable pub split : ℕ → String → List String
unfolding push_char
split sep String.[] = String.[] ∷ []
split sep (String.◌∷◌ c s) =
    let rest = split sep s in if nat_eq (code c) sep then String.[] ∷ rest else push_char c rest

-- The text before the separator's first place, and the text behind it if there is one.
unfoldable pub cut : ℕ → String → String × Bool × String
cut sep String.[] = (String.[], false, String.[])
cut sep (String.◌∷◌ c s) =
    let rest = cut sep s in
    if nat_eq (code c) sep then (String.[], true, s) else (String.◌∷◌ c rest.0, rest.1, rest.2)

-- strings.TrimSuffix(s, suffix)
unfoldable pub trim_suffix : String → String → String
trim_suffix String.[] suffix = String.[]
trim_suffix (String.◌∷◌ c s) suffix =
    let rest = trim_suffix s suffix in
    if String.◌∷◌ c s == suffix then String.[] else String.◌∷◌ c rest

trim_test : trim_suffix "DockerMachineTemplate" "Template" ≡ "DockerMachine"
unfolding trim_suffix
trim_test = refl

contains_test : contains "v1.31.1+k0s.0" "+k0s." ≡ true
unfolding contains
contains_test = refl

split_test : split b'+' "v1.31.1+k0s.0" ≡ "v1.31.1" ∷ "k0s.0" ∷ []
unfolding split
split_test = refl

split_empty : split b',' "" ≡ "" ∷ []
unfolding split
split_empty = refl
