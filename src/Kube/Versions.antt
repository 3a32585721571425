-- ===== src/Kube/Versions.antt =====
-- github.com/k0sproject/version, as far as the program uses it.
use k0smotron.Prelude.{ℕ, String, Bool, Option, List}

pub record VersionLib : Type 1 where
  pub Version : Type 0
  -- NewVersion; `none` is its error
  pub new_version : String → Option Version
  pub equal : Version → Version → Bool
  pub less_than : Version → Version → Bool
  pub greater_than_or_equal : Version → Version → Bool
  -- String(), Core().String() and Core().Segments()[1]
  pub to_string : Version → String
  pub core_string : Version → String
  pub minor : Version → ℕ
  -- sort.Sort(version.Collection(vs)) and then vs[0], for a list that is not empty
  pub lowest : Version → List Version → Version
