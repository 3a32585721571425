-- ===== src/Bootstrap/Install/Commands.antt =====
-- All the commands of a machine: genK0sCommands in controlplane_bootstrap_controller.go, and
-- getLinuxCommands and createIngressCommands in worker_bootstrap_controller.go
-- (internal/controller/bootstrap).
use k0smotron.Prelude.{String, List, [], ◌∷◌, ◌++◌, Bool, true, false, Option, if◌then◌else◌, ◌==◌}
use k0smotron.Kube.{Error, wrap, Result, ok, and_then, map_err, K0sConfigSpec, K0sWorkerConfigSpec}
use k0smotron.Bootstrap.Install.{Url, text_of, download_commands, create_install_cmd}

-- The variables of a custom user data template.
pub record CommandsMap : Type 0 where
  pub k0s_download_commands : String
  pub k0s_install_command : String
  pub k0s_start_command : String

-- strings.Join(commands, " && ")
join_and : List String → String
join_and [] = ""
join_and (s ∷ []) = s
join_and (s ∷ t ∷ ts) = text_of (s ∷ " && " ∷ join_and (t ∷ ts) ∷ [])

abbrev pub get_shutdown_files_dir : String → String
get_shutdown_files_dir working_dir = if working_dir == "" then "/etc/k0s" else working_dir

-- The commands that register the service which leaves the etcd cluster, for systemd, OpenRC and
-- SysV.
shutdown_commands : String → List String
shutdown_commands dir =
    text_of (
      "(command -v systemctl > /dev/null 2>&1 && (cp " ∷ dir
      ∷ "/k0sleave.service /etc/systemd/system/k0sleave.service && systemctl daemon-reload && systemctl enable k0sleave.service && systemctl start --no-block k0sleave.service) || true)"
      ∷ [])
    ∷ text_of (
        "(command -v rc-service > /dev/null 2>&1 && (cp " ∷ dir
        ∷ "/k0sleave-openrc /etc/init.d/k0sleave && rc-update add k0sleave shutdown) || true)" ∷ [])
    ∷ text_of (
        "(command -v service > /dev/null 2>&1 && (cp " ∷ dir
        ∷ "/k0sleave-sysv /etc/init.d/k0sleave && update-rc.d k0sleave defaults && service k0sleave start) || true)"
        ∷ [])
    ∷ []

-- By the ingress of the control plane, if there is one.
create_ingress_commands : Bool → List String
create_ingress_commands false = []
create_ingress_commands true =
    "mkdir -p /etc/haproxy/certs"
    ∷ "cat /etc/haproxy/certs/server.crt /etc/haproxy/certs/server.key > /etc/haproxy/certs/server.pem"
    ∷ "chmod 666 /etc/haproxy/certs/server.pem" ∷ []

worker_start_command : String
worker_start_command = text_of (
    "(command -v systemctl > /dev/null 2>&1 && systemctl start k0sworker) || "
    ∷ "(command -v rc-service > /dev/null 2>&1 && rc-service k0sworker start) || "
    ∷ "(command -v service > /dev/null 2>&1 && service k0sworker start) || "
    ∷ "(echo \"Not a supported init system\"; false)" ∷ [])

module _ (parse_url : String → Option Url) (join_path : String → String → String) where
  map_of : List String → String → String → CommandsMap
  unfolding join_and
  map_of downloads install start = record {
    k0s_download_commands = join_and downloads;
    k0s_install_command = install;
    k0s_start_command = start;
  }

  download_for : Bool → String → String → String → Result Error (List String)
  unfolding download_commands
  download_for pre_installed url version dir =
      map_err (wrap ("error generating download commands" ∷ []))
        (download_commands parse_url join_path pre_installed url version dir)

  -- `is_old` is whether the version of the control plane is less than that with an etcd member
  -- resource.
  pub gen_k0s_commands :
      K0sConfigSpec → String → Bool → String → Result Error (List String × CommandsMap)
  unfolding download_for shutdown_commands map_of
  gen_k0s_commands spec version is_old install =
      let start = text_of (join_path spec.k0s_install_dir "k0s" ∷ " start" ∷ []) in
      let leave =
        if is_old then shutdown_commands (get_shutdown_files_dir spec.working_dir) else [] in
      and_then (download_for spec.pre_installed_k0s spec.download_url version spec.k0s_install_dir)
        λ downloads. ok (
          spec.pre_k0s_commands ++ downloads ++ leave ++ install ∷ start ∷ spec.post_k0s_commands,
          map_of downloads install start,
        )

  -- The sentinel file is the last step.
  pub get_linux_commands :
      K0sWorkerConfigSpec → String → Bool → Result Error (List String × CommandsMap)
  unfolding download_for create_ingress_commands worker_start_command map_of create_install_cmd
  get_linux_commands spec owner has_ingress =
      let install = create_install_cmd parse_url join_path spec owner in
      and_then
        (download_for spec.pre_installed_k0s spec.download_url spec.version spec.k0s_install_dir)
        λ downloads. ok (
          spec.pre_k0s_commands
              ++ downloads
              ++ create_ingress_commands has_ingress
              ++ install
                ∷ worker_start_command
                ∷ (spec.post_k0s_commands
                    ++ "mkdir -p /run/cluster-api && touch /run/cluster-api/bootstrap-success.complete"
                      ∷ []),
          map_of downloads install worker_start_command,
        )
