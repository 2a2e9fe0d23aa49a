-- ===== src/Docker/Builder.antt =====
-- runtime/backend/docker/builder.go: SpecBuilder, whose methods change the spec that they hold.
use toolexec.Base.{ℤ, pos, String, Bool, Option, none, some, List, [], ◌∷◌, ◌++◌}
use toolexec.Base.Dict.{Dict, insert}
use toolexec.Errors.{Err}
use toolexec.Effects.{Result, ok, err}
use toolexec.Docker.Spec.{
  Mount, mount_type_bind, mount_type_tmpfs, ResourceSpec, SecuritySpec, ContainerSpec, no_resources,
  no_security,
}
use toolexec.Docker.Validation.{validate_spec}
use Prim.Native.String.{◌++◌ as text_append}

unfoldable pub new_spec_builder : String → ContainerSpec
new_spec_builder image = record {
  image = image;
  command = [];
  working_dir = "";
  env = [];
  mounts = [];
  resources = no_resources;
  security = no_security;
  timeout = pos 0;
  labels = [];
}

unfoldable pub with_command : List String → ContainerSpec → ContainerSpec
with_command cmd b = record b { command = cmd }

unfoldable pub with_working_dir : String → ContainerSpec → ContainerSpec
with_working_dir dir b = record b { working_dir = dir }

unfoldable pub with_env : String → String → ContainerSpec → ContainerSpec
with_env key value b = record b { env = b.env ++ text_append key (text_append "=" value) ∷ [] }

unfoldable pub with_envs : List String → ContainerSpec → ContainerSpec
with_envs envs b = record b { env = b.env ++ envs }

unfoldable pub with_mount : Mount → ContainerSpec → ContainerSpec
with_mount m b = record b { mounts = b.mounts ++ m ∷ [] }

unfoldable pub with_bind_mount : String → String → Bool → ContainerSpec → ContainerSpec
unfolding with_mount
with_bind_mount source target read_only = with_mount (record {
  kind = mount_type_bind;
  source = source;
  target = target;
  read_only = read_only;
  consistency = "";
})

unfoldable pub with_tmpfs : String → ContainerSpec → ContainerSpec
unfolding with_mount
with_tmpfs target = with_mount (record {
  kind = mount_type_tmpfs;
  source = "";
  target = target;
  read_only = Bool.false;
  consistency = "";
})

unfoldable pub with_resources : ResourceSpec → ContainerSpec → ContainerSpec
with_resources r b = record b { resources = r }

unfoldable pub with_memory : ℤ → ContainerSpec → ContainerSpec
with_memory bytes b = record b { resources = record b.resources { memory_bytes = bytes } }

unfoldable pub with_cpu : ℤ → ContainerSpec → ContainerSpec
with_cpu quota b = record b { resources = record b.resources { cpu_quota = quota } }

unfoldable pub with_pids_limit : ℤ → ContainerSpec → ContainerSpec
with_pids_limit limit b = record b { resources = record b.resources { pids_limit = limit } }

unfoldable pub with_security : SecuritySpec → ContainerSpec → ContainerSpec
with_security s b = record b { security = s }

unfoldable pub with_user : String → ContainerSpec → ContainerSpec
with_user user b = record b { security = record b.security { user = user } }

unfoldable pub with_read_only_rootfs : Bool → ContainerSpec → ContainerSpec
with_read_only_rootfs read_only b = record b {
  security = record b.security { read_only_rootfs = read_only };
}

unfoldable pub with_network_mode : String → ContainerSpec → ContainerSpec
with_network_mode mode b = record b { security = record b.security { network_mode = mode } }

unfoldable pub with_no_network : ContainerSpec → ContainerSpec
unfolding with_network_mode
with_no_network = with_network_mode "none"

unfoldable pub with_seccomp_profile : String → ContainerSpec → ContainerSpec
with_seccomp_profile path b = record b { security = record b.security { seccomp_profile = path } }

unfoldable pub with_timeout : ℤ → ContainerSpec → ContainerSpec
with_timeout d b = record b { timeout = d }

unfoldable pub with_label : String → String → ContainerSpec → ContainerSpec
with_label key value b = record b { labels = insert b.labels key value }

-- maps.Copy(b.spec.Labels, labels)
copy_labels : Dict String → Dict String → Dict String
copy_labels into [] = into
copy_labels into ((k, v) ∷ labels) = copy_labels (insert into k v) labels

unfoldable pub with_labels : Dict String → ContainerSpec → ContainerSpec
unfolding copy_labels
with_labels labels b = record b { labels = copy_labels b.labels labels }

built : ContainerSpec → Option Err → Result ContainerSpec
built b none = ok b
built b (some e) = err e

unfoldable pub build : ContainerSpec → Result ContainerSpec
unfolding built
build b = built b (validate_spec b)
