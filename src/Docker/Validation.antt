-- ===== src/Docker/Validation.antt =====
-- runtime/backend/docker/validation.go.
use toolexec.Base.{
  is_negative, String, ◌≡◌, refl, ◌≢◌, ◌↔◌, ◌⊎◌, inl, inr, true, false, Option, none, some, List,
  [], ◌∷◌, arith, str_eq, eq_iff, is_empty, if◌then◌else◌, All,
}
use toolexec.Errors.{Err, sentinel, message, wrapped, context, security_violation}
use toolexec.Docker.Spec.{
  mount_type_bind, mount_type_volume, mount_type_tmpfs, Mount, ResourceSpec, SecuritySpec,
  ContainerSpec,
}

-- Validate of SecuritySpec
unfoldable pub validate_security : SecuritySpec → Option Err
validate_security s =
    if s.privileged
    then some (sentinel security_violation)
    else if str_eq s.network_mode "host"
    then some (wrapped security_violation (message "host network not allowed"))
    else none

-- Validate of ResourceSpec
unfoldable pub validate_resources : ResourceSpec → Option Err
validate_resources r =
    if is_negative r.memory_bytes
    then some (message "memory cannot be negative")
    else if is_negative r.cpu_quota
    then some (message "cpu quota cannot be negative")
    else if is_negative r.pids_limit
    then some (message "pids limit cannot be negative")
    else if is_negative r.disk_bytes
    then some (message "disk limit cannot be negative")
    else none

-- Validate of Mount
unfoldable pub validate_mount : Mount → Option Err
validate_mount m =
    if is_empty m.target
    then some (message "target is required")
    else if str_eq m.kind mount_type_bind
    then if is_empty m.source then some (message "source is required for bind mounts") else none
    else if str_eq m.kind mount_type_volume
    then if is_empty m.source then some (message "source is required for volume mounts") else none
    else if str_eq m.kind mount_type_tmpfs
    then none
    else if is_empty m.kind
    then some (message "mount type is required")
    else some (message "unknown mount type")

-- an error, with the part of the spec in front; else the rest decides
abbrev or_else : String → Option Err → Option Err → Option Err
or_else part none rest = rest
or_else part (some e) rest = some (context part e)

-- the loop over the mounts
unfoldable pub validate_mounts : List Mount → Option Err
validate_mounts [] = none
validate_mounts (m ∷ ms) = or_else "mount" (validate_mount m) (validate_mounts ms)

-- Validate of ContainerSpec
unfoldable pub validate_spec : ContainerSpec → Option Err
validate_spec s =
    if is_empty s.image
    then some (message "image is required")
    else or_else "security" (validate_security s.security)
        (or_else "resources" (validate_resources s.resources) (validate_mounts s.mounts))

-- A mount that may be made: a target, and a source unless it is in memory.
pub record IsMount (m : Mount) : Type 0 where
  pub target : m.target ≢ ""
  pub kind :
      ((m.kind ≡ mount_type_bind) ⊎ (m.kind ≡ mount_type_volume)) × (m.source ≢ "")
      ⊎ (m.kind ≡ mount_type_tmpfs)

-- What a spec must satisfy to be run.
pub record IsSandboxed (s : ContainerSpec) : Type 0 where
  pub image : s.image ≢ ""
  pub unprivileged : s.security.privileged ≡ false
  pub network : s.security.network_mode ≢ "host"
  pub memory : is_negative s.resources.memory_bytes ≡ false
  pub cpu : is_negative s.resources.cpu_quota ≡ false
  pub pids : is_negative s.resources.pids_limit ≡ false
  pub disk : is_negative s.resources.disk_bytes ≡ false
  pub mounts : All IsMount s.mounts

-- A mount is accepted exactly if it may be made.
validate_mount-IsMount : (m : Mount) → validate_mount m ≡ none → IsMount m
unfolding validate_mount
validate_mount-IsMount m h = grind (
  arith,
  eq_iff m.target "",
  eq_iff m.source "",
  eq_iff m.kind mount_type_bind,
  eq_iff m.kind mount_type_volume,
  eq_iff m.kind mount_type_tmpfs,
)

str_eq_ne : (s t : String) → s ≢ t → str_eq s t ≡ false
str_eq_ne s t h = ground (arith, eq_iff s t)

accepted :
    (m : Mount)
    → is_empty m.target ≡ false
    → ((str_eq m.kind mount_type_bind ≡ true) ⊎ (str_eq m.kind mount_type_volume ≡ true))
        × (is_empty m.source ≡ false)
      ⊎ (str_eq m.kind mount_type_tmpfs ≡ true)
    → (str_eq m.kind mount_type_tmpfs ≡ true
        → (str_eq m.kind mount_type_bind ≡ false) × (str_eq m.kind mount_type_volume ≡ false))
    → validate_mount m ≡ none
unfolding validate_mount
accepted m target (inl (inl bind, source)) other = rw (target, bind, source)
accepted m target (inl (inr volume, source)) other = ground arith
accepted m target (inr tmpfs) other = rw (target, (other tmpfs).0, (other tmpfs).1, tmpfs)

IsMount-validate_mount : (m : Mount) → IsMount m → validate_mount m ≡ none
IsMount-validate_mount m v =
    accepted m (str_eq_ne m.target "" v.target)
      (elim v.kind [
        | inl (inl bind, source) ↦ inl (inl ((eq_iff _ _).1 bind), str_eq_ne _ _ source)
        | inl (inr volume, source) ↦ inl (inr ((eq_iff _ _).1 volume), str_eq_ne _ _ source)
        | inr tmpfs ↦ inr ((eq_iff _ _).1 tmpfs)
      ])
      (λ t. let e = (eq_iff m.kind mount_type_tmpfs).0 t in (rw e, rw e))

or_else-none :
    (part : String) (e rest : Option Err)
    → (or_else part e rest ≡ none) ↔ ((e ≡ none) × (rest ≡ none))
or_else-none part e rest = ground arith

validate_mounts_iff : (ms : List Mount) → (validate_mounts ms ≡ none) ↔ All IsMount ms
unfolding validate_mounts
validate_mounts_iff [] = (λ _. tt, λ _. refl)
validate_mounts_iff (m ∷ ms) =
    let both = or_else-none "mount" (validate_mount m) (validate_mounts ms) in
    let ih = validate_mounts_iff ms in
    (
      λ h. (validate_mount-IsMount m (both.0 h).0, ih.0 (both.0 h).1),
      λ v. both.1 (IsMount-validate_mount m v.0, ih.1 v.1),
    )

-- A spec is accepted exactly if it may be run.
pub validate_spec_iff : (s : ContainerSpec) → (validate_spec s ≡ none) ↔ IsSandboxed s
unfolding validate_spec validate_security validate_resources
validate_spec_iff s =
    grind (
      arith,
      eq_iff s.image "",
      eq_iff s.security.network_mode "host",
      validate_mounts_iff s.mounts,
    )
