-- ===== src/Executor/Command.antt =====
-- code_executor_api/executor/podman_executor.py, the command line of `run_container`.
use code_executor_api.Prelude.{Text, codes, List, [], ◌∷◌, ◌++◌}
use code_executor_api.Languages.{LanguageRuntime}

-- The settings of a container, as the texts that `str` and the environment give.
pub record ContainerSettings : Type 0 where
  pub pids_limit : Text
  pub ulimit_nofile : Text
  pub ulimit_fsize : Text
  pub user_id : Text
  pub network : Text
  pub tmpfs_size : Text
  pub max_memory : Text
  pub max_cpu_cores : Text
  pub image_prefix : Text
  pub niceness : Text

-- The command line of `podman run`
unfoldable pub podman_run : ContainerSettings → Text → Text → LanguageRuntime → Text → List Text
podman_run c work_directory container_name runtime code =
    codes "podman"
    ∷ codes "run"
    ∷ codes "--pull=never"
    ∷ codes "--read-only"
    ∷ codes "--cap-drop=ALL"
    ∷ codes "--security-opt=no-new-privileges"
    ∷ codes "--pids-limit"
    ∷ c.pids_limit
    ∷ codes "--ulimit"
    ∷ (codes "nofile=" ++ (c.ulimit_nofile ++ (codes ":" ++ c.ulimit_nofile)))
    ∷ codes "--ulimit"
    ∷ (codes "fsize=" ++ (c.ulimit_fsize ++ (codes ":" ++ c.ulimit_fsize)))
    ∷ codes "--cgroupns=private"
    ∷ (codes "--userns=keep-id:uid=" ++ (c.user_id ++ (codes ",gid=" ++ c.user_id)))
    ∷ (codes "--user=" ++ (c.user_id ++ (codes ":" ++ c.user_id)))
    ∷ codes "--ipc=none"
    ∷ (codes "--net=" ++ c.network)
    ∷ codes "--sysctl"
    ∷ (codes "net.ipv4.ping_group_range=" ++ (c.user_id ++ (codes " " ++ c.user_id)))
    ∷ codes "--tmpfs"
    ∷ (codes "/tmp:rw,nosuid,nodev,exec,size=" ++ c.tmpfs_size)
    ∷ codes "--interactive"
    ∷ codes "--tty"
    ∷ codes "--rm"
    ∷ codes "--label"
    ∷ codes "code_executor_api.managed=true"
    ∷ (codes "--memory=" ++ c.max_memory)
    ∷ (codes "--memory-swap=" ++ c.max_memory)
    ∷ (codes "--cpus=" ++ c.max_cpu_cores)
    ∷ codes "--volume"
    ∷ (work_directory ++ codes ":/app/")
    ∷ codes "--name"
    ∷ container_name
    ∷ (c.image_prefix ++ (codes "-" ++ runtime.image))
    ∷ codes "nice"
    ∷ codes "-n"
    ∷ c.niceness
    ∷ (runtime.command ++ (code ∷ []))
