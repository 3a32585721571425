-- ===== src/Examples/Gates.antt =====
-- The flags of a manager.
use k0smotron.Prelude.{[], ◌∷◌, true, refl, split, cut}
use k0smotron.Bootstrap.Args.{parse_bool}
use k0smotron.FeatureGates.{
  default_feature_map, gate_of, set_gate, parse_feature_gate_flags, parse_pairs, parse_pair,
  value_of, trim_space, trim_left, trim_right, is_space, apply, set_if_known, apply_next, configure,
  configure_parsed,
}
use k0smotron.FeatureGates.Parsing.{AreSet, configure_sets}

configure_sets_example :
    AreSet
      (("InPlaceUpdates", true) ∷ [])
      default_feature_map
      (configure "InPlaceUpdates = true" "" default_feature_map).1
unfolding parse_feature_gate_flags parse_pairs parse_pair value_of parse_bool trim_space trim_left
    trim_right is_space apply set_if_known apply_next configure configure_parsed gate_of set_gate
    split cut
configure_sets_example =
    configure_sets "InPlaceUpdates = true" "" default_feature_map (("InPlaceUpdates", true) ∷ [])
      refl refl
