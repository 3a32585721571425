-- ===== src/Kube/Unstructured.antt =====
-- Unstructured content (map[string]any) as trees.
use k0smotron.Prelude.{ℕ, String, List, [], ◌∷◌, Bool, Option, none, some}

mutual
  pub data Json : Type 0 where
    null : Json
    boolean : Bool → Json
    number : ℕ → Json
    text : String → Json
    array : Items → Json
    object : Fields → Json

  pub data Items : Type 0 where
    no_items : Items
    item : Json → Items → Items

  pub data Fields : Type 0 where
    no_fields : Fields
    field : String → Json → Fields → Fields

-- v.(map[string]any)
abbrev pub as_object : Json → Option Fields
as_object (object fs) = some fs
as_object _ = none

abbrev pub item_list : Items → List Json
item_list no_items = []
item_list (item v r) = v ∷ item_list r

abbrev pub field_list : Fields → List (String × Json)
field_list no_fields = []
field_list (field k v r) = (k, v) ∷ field_list r
