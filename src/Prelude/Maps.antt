-- ===== src/Prelude/Maps.antt =====
-- Go's maps with text keys: total functions into `Option` for the object tables that the
-- controller never ranges over, association lists for annotations.
use Prim.Native.String.{String}
use mathlib.Core.Path.{◌≡◌, refl}
use mathlib.Core.Bool.{Bool, true}
use mathlib.Core.Option.{Option, none, some}
use mathlib.Core.List.{List, [], ◌∷◌}
use native.Mathlib.Omega.{arith}
use k0smotron.Prelude.Tests.{if◌then◌else◌, ◌==◌, eq_iff, ==_self, is_some}

abbrev pub update {ℓ} : {V : Type ℓ} → (String → V) → String → V → String → V
update f k v j = if k == j then v else f j

-- map[string]string
abbrev pub StringMap : Type 0
StringMap = List (String × String)

unfoldable pub lookup : String → StringMap → Option String
lookup key [] = none
lookup key (entry ∷ others) =
    let later = lookup key others in if entry.0 == key then some entry.1 else later

-- m[k] = v
pub insert : String → String → StringMap → StringMap
insert key value [] = (key, value) ∷ []
insert key value (entry ∷ others) =
    let later = insert key value others in
    if entry.0 == key then (key, value) ∷ others else entry ∷ later

-- delete(m, k)
pub remove : String → StringMap → StringMap
remove k [] = []
remove k ((j, w) ∷ m) = let rest = remove k m in if j == k then rest else (j, w) ∷ rest

abbrev pub has_key : String → StringMap → Bool
has_key k m = is_some (lookup k m)

pub lookup-insert :
    (key other value : String) (m : StringMap)
    → lookup other (insert key value m) ≡ (if key == other then some value else lookup other m)
unfolding lookup insert
lookup-insert key other value [] = refl
lookup-insert key other value (entry ∷ others) = ground (
  arith,
  lookup-insert key other value others,
  eq_iff entry.0 key,
  eq_iff entry.0 other,
  eq_iff key other,
)

pub lookup-remove :
    (k j : String) (m : StringMap) → lookup j (remove k m) ≡ (if k == j then none else lookup j m)
unfolding lookup remove
lookup-remove k j [] = ground arith
lookup-remove k j ((i, w) ∷ m) =
    ground (arith, eq_iff k j, eq_iff i k, eq_iff i j, lookup-remove k j m)

pub lookup-insert_self : (k v : String) (m : StringMap) → lookup k (insert k v m) ≡ some v
lookup-insert_self k v m = simp (lookup-insert, ==_self)

pub lookup-remove_self : (k : String) (m : StringMap) → lookup k (remove k m) ≡ none
lookup-remove_self k m = simp (lookup-remove, ==_self)

-- maps.Copy(dst, src)
pub copy_into : StringMap → StringMap → StringMap
copy_into dst [] = dst
copy_into dst ((k, v) ∷ m) = copy_into (insert k v dst) m

pub has_key-insert :
    (k j v : String) (m : StringMap) → has_key j m ≡ true → has_key j (insert k v m) ≡ true
has_key-insert k j v m h = rw (lookup-insert k j v m) (ground arith)

pub has_key-copy_into :
    (j : String) (dst src : StringMap) → has_key j dst ≡ true → has_key j (copy_into dst src) ≡ true
unfolding copy_into
has_key-copy_into j dst [] h = h
has_key-copy_into j dst ((k, v) ∷ m) h =
    has_key-copy_into j (insert k v dst) m (has_key-insert k j v dst h)
