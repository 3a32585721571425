-- ===== src/Prelude/Text/Splits.antt =====
-- strings.Join, and how strings.Split reads what it wrote.
use Prim.Native.Nat.{ℕ}
use Prim.Native.Char.{Char, code}
use Prim.Native.String.{String}
use mathlib.Core.Path.{◌≡◌, refl, sym, ap, subst, ◌∙◌}
use mathlib.Core.Bool.{Bool, true, false}
use mathlib.Core.Logic.{inl, inr}
use mathlib.Core.List.{List, [], ◌∷◌}
use native.Mathlib.Omega.{arith}
use k0smotron.Prelude.Tests.{if◌then◌else◌, nat_eq, Bool-cases}
use k0smotron.Prelude.Lists.{All}
use k0smotron.Prelude.Text.{push_char, split}

-- s + t
unfoldable pub onto : String → String → String
onto String.[] t = t
onto (String.◌∷◌ c s) t = String.◌∷◌ c (onto s t)

-- strings.Join(list, sep), for a separator of one character
unfoldable pub join : Char → List String → String
unfolding onto
join c [] = String.[]
join c (s ∷ []) = s
join c (s ∷ t ∷ ts) = onto s (String.◌∷◌ c (join c (t ∷ ts)))

-- Whether the separator does not stand in the text.
unfoldable pub is_free : ℕ → String → Bool
is_free sep String.[] = true
is_free sep (String.◌∷◌ c s) =
    let rest = is_free sep s in if nat_eq (code c) sep then false else rest

abbrev pub IsFree : ℕ → String → Type 0
IsFree sep s = is_free sep s ≡ true

push_char-IsFree :
    (sep : ℕ) (c : Char) (ps : List String)
    → nat_eq (code c) sep ≡ false
    → All (IsFree sep) ps
    → All (IsFree sep) (push_char c ps)
unfolding push_char is_free
push_char-IsFree sep c [] h hs = (ground (arith, h), tt)
push_char-IsFree sep c (p ∷ ps) h hs = (ground (arith, h, hs.0), hs.1)

-- The two branches of one step of the loop.
split_step : (sep : ℕ) (c : Char) (s : String) → List String → List String
unfolding push_char
split_step sep c s rest = if nat_eq (code c) sep then String.[] ∷ rest else push_char c rest

split_step-IsFree :
    (sep : ℕ) (c : Char) (s : String) (rest : List String)
    → All (IsFree sep) rest
    → All (IsFree sep) (split_step sep c s rest)
unfolding split_step is_free
split_step-IsFree sep c s rest hs = elim (Bool-cases (nat_eq (code c) sep)) [
  | inl e ↦
      subst (λ b. All (IsFree sep) (if b then String.[] ∷ rest else push_char c rest)) (sym e)
        (refl, hs)
  | inr e ↦
      subst (λ b. All (IsFree sep) (if b then String.[] ∷ rest else push_char c rest)) (sym e)
        (push_char-IsFree sep c rest e hs)
]

-- No piece has the separator in it.
pub split-IsFree : (sep : ℕ) (s : String) → All (IsFree sep) (split sep s)
unfolding split split_step is_free
split-IsFree sep String.[] = (refl, tt)
split-IsFree sep (String.◌∷◌ c s) = split_step-IsFree sep c s (split sep s) (split-IsFree sep s)

split-single : (sep : ℕ) (s : String) → IsFree sep s → split sep s ≡ s ∷ []
unfolding split is_free push_char
split-single sep String.[] h = refl
split-single sep (String.◌∷◌ c s) h = elim (Bool-cases (nat_eq (code c) sep)) [
  | inl e ↦ ground (arith, h, e)
  | inr e ↦ rw (e, split-single sep s (ground (arith, h, e))) refl
]

split-onto :
    (c : Char) (s t : String)
    → IsFree (code c) s
    → split (code c) (onto s (String.◌∷◌ c t)) ≡ s ∷ split (code c) t
unfolding split onto is_free push_char
split-onto c String.[] t h = ground arith
split-onto c (String.◌∷◌ d s) t h = elim (Bool-cases (nat_eq (code d) (code c))) [
  | inl e ↦ ground (arith, h, e)
  | inr e ↦ rw (e, split-onto c s t (ground (arith, h, e))) refl
]

-- A list that is not empty comes back, if no entry has the separator in it.
pub split-join :
    (c : Char) (s : String) (ss : List String)
    → All (IsFree (code c)) (s ∷ ss)
    → split (code c) (join c (s ∷ ss)) ≡ s ∷ ss
unfolding join
split-join c s [] h = split-single (code c) s h.0
split-join c s (t ∷ ts) h =
    split-onto c s (join c (t ∷ ts)) h.0 ∙ ap (λ r. s ∷ r) (split-join c t ts h.1)
