-- ===== src/Bootstrap/Install/Files.antt =====
-- Files whose contents come from secrets and config maps.
use k0smotron.Prelude.{String, List, [], ◌∷◌, Option, none, some, ◌≡◌, StringMap}
use k0smotron.Kube.{ApiError, Result, ok, File, ContentSource}
use k0smotron.Bootstrap.Install.{resolve_content_from_file}

module _ (get_secret get_config_map : String → Result ApiError StringMap) where
  -- A file that has its content keeps it; else it gets that of its source, and nothing else changes.
  abbrev pub IsResolved : File → Option ContentSource → File → Type 0
  IsResolved f none g = g ≡ f
  IsResolved f (some source) g =
      (content : String) × (resolve_content_from_file get_secret get_config_map source ≡ ok content)
      × (g ≡ record f { content = content; content_from = none })

  abbrev pub AreResolved : List File → List File → Type 0
  AreResolved [] [] = Unit
  AreResolved (f ∷ fs) (g ∷ gs) = IsResolved f f.content_from g × AreResolved fs gs
  AreResolved _ _ = ⊥
