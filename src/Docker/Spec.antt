-- ===== src/Docker/Spec.antt =====
-- runtime/backend/docker/spec.go.
use toolexec.Base.{ℕ, ℤ, pos, String, Bool, false, List}
use toolexec.Base.Dict.{Dict}

-- MountType is a string type.
abbrev pub mount_type_bind : String
mount_type_bind = "bind"

abbrev pub mount_type_volume : String
mount_type_volume = "volume"

abbrev pub mount_type_tmpfs : String
mount_type_tmpfs = "tmpfs"

pub record Mount : Type 0 where
  pub kind : String
  pub source : String
  pub target : String
  pub read_only : Bool
  pub consistency : String

pub record ResourceSpec : Type 0 where
  pub memory_bytes : ℤ
  pub cpu_quota : ℤ
  pub pids_limit : ℤ
  pub disk_bytes : ℤ

pub record SecuritySpec : Type 0 where
  pub user : String
  pub read_only_rootfs : Bool
  pub network_mode : String
  pub seccomp_profile : String
  pub privileged : Bool

pub record ContainerSpec : Type 0 where
  pub image : String
  pub command : List String
  pub working_dir : String
  pub env : List String
  pub mounts : List Mount
  pub resources : ResourceSpec
  pub security : SecuritySpec
  pub timeout : ℤ
  pub labels : Dict String

-- The zero values `ResourceSpec{}` and `SecuritySpec{}`.
abbrev pub no_resources : ResourceSpec
no_resources = record {
  memory_bytes = pos 0;
  cpu_quota = pos 0;
  pids_limit = pos 0;
  disk_bytes = pos 0;
}

abbrev pub no_security : SecuritySpec
no_security = record {
  user = "";
  read_only_rootfs = false;
  network_mode = "";
  seccomp_profile = "";
  privileged = false;
}

pub record ContainerResult : Type 0 where
  pub exit_code : ℤ
  pub stdout : String
  pub stderr : String
  pub duration : ℕ
