-- ===== src/Examples/Installs.antt =====
-- The arguments and the files of a machine.
use k0smotron.Prelude.{
  String, List, [], ◌∷◌, ◌++◌, map, keep, true, false, not, none, some, ◌≡◌, StringMap,
}
use k0smotron.Kube.{ApiError, not_found, Result, ok, err, File}
use k0smotron.Bootstrap.Install.{is_kubelet_argument, kubelet_value, merge_extra_args}
use k0smotron.Bootstrap.Install.Arguments.{
  label_argument, host_argument, kubelet_argument, IsPlain, quoted, merge_extra_args-keep,
}
use k0smotron.Examples.Specs.{file}

abbrev arguments : List String
arguments =
    "--debug" ∷ "--kubelet-extra-args=--v=4" ∷ "--enable-worker" ∷ "--kubelet-extra-args --quiet"
    ∷ []

merge_extra_args-keep_example :
    (merge_extra_args arguments "cp-1" true false
      ≡ (label_argument "cp-1" true ++ keep (λ a. not (is_kubelet_argument a)) arguments)
        ++ kubelet_argument (
            host_argument "cp-1" true false
            ++ map kubelet_value (keep is_kubelet_argument arguments)))
    × ((v : String) → IsPlain v → kubelet_value (quoted v) ≡ v)
merge_extra_args-keep_example = merge_extra_args-keep arguments "cp-1" true false

abbrev secrets : String → Result ApiError StringMap
secrets name = ok (("motd", "hello") ∷ [])

abbrev config_maps : String → Result ApiError StringMap
config_maps name = err not_found

abbrev sourced : File
sourced = record file {
  content = "";
  content_from = some (record {
    secret_ref = some (record { name = "texts"; key = "motd" });
    config_map_ref = none;
  });
}
