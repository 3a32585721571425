-- ===== src/Prelude/Lists.antt =====
-- Lists measured by native numbers, and membership by recursion, which the tactics read.
use Prim.Native.Nat.{ℕ, suc, ◌+◌, ◌≤◌}
use Prim.Native.String.{String}
use mathlib.Core.Path.{◌≡◌, refl, subst}
use mathlib.Core.Logic.{inl, inr}
use mathlib.Core.Bool.{Bool, true, false, not, false≢true}
use mathlib.Core.List.{List, [], ◌∷◌, ◌++◌}
use native.Mathlib.Omega.{arith}
use k0smotron.Prelude.Tests.{if◌then◌else◌, ◌==◌, eq_iff, ==_self, Bool-cases}

module _ {ℓ} {A : Type ℓ} where
  abbrev pub length : List A → ℕ
  length [] = 0
  length (x ∷ xs) = suc (length xs)

  pub length-append : (xs ys : List A) → length (xs ++ ys) ≡ length xs + length ys
  length-append [] ys = omega arith
  length-append (x ∷ xs) ys = omega (arith, length-append xs ys)

  -- The entries that pass a test, in their order.
  abbrev pub keep : (A → Bool) → List A → List A
  keep p [] = []
  keep p (x ∷ xs) = let rest = keep p xs in if p x then x ∷ rest else rest

  -- How many entries pass a test.
  abbrev pub count : (A → Bool) → List A → ℕ
  count p [] = 0
  count p (x ∷ xs) = let rest = count p xs in if p x then suc rest else rest

  pub count-append : (p : A → Bool) (xs ys : List A) → count p (xs ++ ys) ≡ count p xs + count p ys
  count-append p [] ys = omega arith
  count-append p (x ∷ xs) ys = ground (arith, count-append p xs ys)

  pub count-le-length : (p : A → Bool) (xs : List A) → count p xs ≤ length xs
  count-le-length p [] = omega arith
  count-le-length p (x ∷ xs) = ground (arith, count-le-length p xs)

  abbrev pub any : (A → Bool) → List A → Bool
  any p [] = false
  any p (x ∷ xs) = let rest = any p xs in if p x then true else rest

  abbrev pub All {κ} : (A → Type κ) → List A → Type κ
  All P [] = Unit
  All P (x ∷ xs) = P x × All P xs

  pub All-append {κ} : (P : A → Type κ) (xs ys : List A) → All P xs → All P ys → All P (xs ++ ys)
  All-append P [] ys hx hy = hy
  All-append P (x ∷ xs) ys hx hy = (hx.0, All-append P xs ys hx.1 hy)

-- Whether a text stands in a list of texts.
abbrev pub has : String → List String → Bool
has a [] = false
has a (x ∷ xs) = let rest = has a xs in if x == a then true else rest

pub All-has :
    (P : String → Type 0) (xs : List String) → ((a : String) → has a xs ≡ true → P a) → All P xs
All-has P [] h = tt
All-has P (x ∷ xs) h =
    (h x (ground (arith, ==_self x)), All-has P xs (λ a e. h a (ground (arith, e))))

pub has-All :
    (P : String → Type 0) (xs : List String) (a : String) → All P xs → has a xs ≡ true → P a
has-All P [] a h e = absurd (false≢true e)
has-All P (x ∷ xs) a h e = elim (Bool-cases (x == a)) [
  | inl same ↦ subst P ((eq_iff x a).0 same) h.0
  | inr other ↦ has-All P xs a h.1 (ground (arith, e, other))
]

-- Without the entries that are the given text.
abbrev pub without : String → List String → List String
without a [] = []
without a (x ∷ xs) = let rest = without a xs in if x == a then rest else x ∷ rest

pub has-without :
    (a b : String) (xs : List String) → has b (without a xs) ≡ (if a == b then false else has b xs)
has-without a b [] = ground arith
has-without a b (x ∷ xs) = ground (arith, has-without a b xs, eq_iff x a, eq_iff x b, eq_iff a b)

pub has-keep :
    (p : String → Bool) (b : String) (xs : List String)
    → has b (keep p xs) ≡ (if p b then has b xs else false)
has-keep p b [] = ground arith
has-keep p b (x ∷ xs) = elim (Bool-cases (x == b)) [
  | inl e ↦ rw ((eq_iff x b).0 e) (ground (arith, ==_self b, has-keep p b xs))
  | inr e ↦ ground (arith, has-keep p b xs)
]

-- Two tests that agree on the entries keep the same.
pub keep-cong :
    (p q : String → Bool) (xs : List String)
    → ((a : String) → has a xs ≡ true → p a ≡ q a)
    → keep p xs ≡ keep q xs
keep-cong p q [] h = refl
keep-cong p q (x ∷ xs) h =
    let rest = keep-cong p q xs (λ a e. h a (ground (arith, e))) in
    rw (h x (ground (arith, ==_self x)), rest) refl

pub length-keep-not :
    (p : String → Bool) (xs : List String)
    → length xs ≡ length (keep p xs) + length (keep (λ x. not (p x)) xs)
length-keep-not p [] = omega arith
length-keep-not p (x ∷ xs) = ground (arith, length-keep-not p xs)
