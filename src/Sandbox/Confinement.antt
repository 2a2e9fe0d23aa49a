-- ===== src/Sandbox/Confinement.antt =====
-- The specs that runtime/backend/containerd, gvisor, kata and kubernetes build for a request.
use toolexec.Base.{
  is_negative, ◌||◌, String, ◌≡◌, ◌≢◌, refl, ◌∙◌, inl, inr, Bool-cases, Bool, false, Option, none,
  some, arith, eq_iff, str_eq, if◌then◌else◌,
}
use toolexec.Errors.{
  Err, Sentinel, containerd_violation, gvisor_violation, kata_violation, kubernetes_violation,
}
use toolexec.Effects.{ok}
use toolexec.Runtime.Types.{
  SecurityProfile, profile_dev, profile_standard, profile_hardened, ExecuteRequest,
}
use toolexec.Docker.Spec.{ResourceSpec, SecuritySpec}
use toolexec.Sandbox.Limits.{
  checked, or_else, validate_network, validate_security, validate_resources, isolation_of,
}
use toolexec.Sandbox.Containerd
use toolexec.Sandbox.Gvisor
use toolexec.Sandbox.Kata
use toolexec.Sandbox.Kubernetes
use toolexec.Sandbox.Containerd.{ContainerdBackend}
use toolexec.Sandbox.Gvisor.{GvisorBackend}
use toolexec.Sandbox.Kata.{KataBackend}
use toolexec.Sandbox.Kubernetes.{KubernetesBackend}

abbrev is_isolated : SecurityProfile → Bool
is_isolated p = str_eq p profile_standard || str_eq p profile_hardened

-- The confinement of a spec: who runs it, its network mode, its root and its limits.
pub record IsConfined (profile : SecurityProfile) (dev_network network : String) (read_only : Bool)
    (resources : ResourceSpec) : Type 0 where
  pub off_host : network ≢ "host"
  pub network_mode : network ≡ (
      if is_isolated profile
      then "none"
      else if str_eq profile profile_dev
      then dev_network
      else "")
  pub rootfs : read_only ≡ is_isolated profile
  pub memory : is_negative resources.memory_bytes ≡ false
  pub cpu : is_negative resources.cpu_quota ≡ false
  pub pids : is_negative resources.pids_limit ≡ false
  pub disk : is_negative resources.disk_bytes ≡ false

checked-ok : {A : Type 0} (a s : A) (o : Option Err) → checked a o ≡ ok s → (s ≡ a) × (o ≡ none)
unfolding checked
checked-ok a s none h = ground arith
checked-ok a s (some e) h = ground arith

isolation_of-same :
    (dev_network : String) (p : SecurityProfile)
    → ((isolation_of dev_network p).0
        ≡ (if is_isolated p then "none" else if str_eq p profile_dev then dev_network else ""))
      × ((isolation_of dev_network p).1 ≡ is_isolated p)
unfolding isolation_of
isolation_of-same dev_network p = elim (Bool-cases (str_eq p profile_dev)) [
  | inl dev ↦ rw ((eq_iff p profile_dev).0 dev) (refl, refl)
  | inr other ↦ elim (Bool-cases (is_isolated p)) [
    | inl isolated ↦ rw (other, isolated) (refl, refl)
    | inr unknown ↦ rw (other, unknown) (refl, refl)
  ]
]

network_off_host :
    (violation : Sentinel) (network : String)
    → validate_network violation network ≡ none
    → network ≢ "host"
unfolding validate_network
network_off_host violation network h e = ground (arith, eq_iff network "host")

confined :
    (violation : Sentinel) (profile dev_network network : String) (read_only : Bool)
    (resources : ResourceSpec)
    → network ≡ (isolation_of dev_network profile).0
    → read_only ≡ (isolation_of dev_network profile).1
    → validate_network violation network ≡ none
    → validate_resources resources ≡ none
    → IsConfined profile dev_network network read_only resources
unfolding validate_resources
confined violation profile dev_network network read_only resources n r v w = record {
  off_host = network_off_host violation network v;
  network_mode = n ∙ (isolation_of-same dev_network profile).0;
  rootfs = r ∙ (isolation_of-same dev_network profile).1;
  memory = ground arith;
  cpu = ground arith;
  pids = ground arith;
  disk = ground arith;
}

-- A spec that passes the validation of the four packages has a network and resources that pass.
valid_parts :
    (bad : Bool) (what : Err) (security resources : Option Err)
    → (if bad then some what else or_else "security" security (or_else "resources" resources none))
      ≡ none
    → (security ≡ none) × (resources ≡ none)
valid_parts bad what security resources h = ground arith

unprivileged :
    (violation : Sentinel) (s : SecuritySpec)
    → validate_security violation s ≡ none
    → validate_network violation s.network_mode ≡ none
unfolding validate_security
unprivileged violation s h = ground arith

module _ {W : Type 0} (image : String) (req : ExecuteRequest W) (profile : SecurityProfile) where
  containerd-IsConfined :
      (b : ContainerdBackend W) (s : Containerd.ContainerSpec)
      → Containerd.build_spec b image req profile ≡ ok s
      → IsConfined profile "bridge" s.security.network_mode s.security.read_only_rootfs s.resources
  unfolding Containerd.build_spec Containerd.validate_spec
  containerd-IsConfined b s h =
      let (same, valid) = checked-ok _ s _ h in
      let (security, resources) = valid_parts _ _ _ _ valid in
      rw same (
        confined containerd_violation profile "bridge" _ _ _ refl refl
          (unprivileged containerd_violation _ security) resources)

  gvisor-IsConfined :
      (b : GvisorBackend W) (s : Gvisor.SandboxSpec)
      → Gvisor.build_spec b image req profile ≡ ok s
      → IsConfined profile b.network_mode s.security.network_mode s.security.read_only_rootfs
          s.resources
  unfolding Gvisor.build_spec Gvisor.validate_spec
  gvisor-IsConfined b s h =
      let (same, valid) = checked-ok _ s _ h in
      let (security, resources) = valid_parts _ _ _ _ valid in
      rw same (
        confined gvisor_violation profile b.network_mode _ _ _ refl refl
          (unprivileged gvisor_violation _ security) resources)

  kata-IsConfined :
      (b : KataBackend W) (s : Kata.SandboxSpec)
      → Kata.build_spec b image req profile ≡ ok s
      → IsConfined profile "bridge" s.security.network_mode s.security.read_only_rootfs s.resources
  unfolding Kata.build_spec Kata.validate_spec
  kata-IsConfined b s h =
      let (same, valid) = checked-ok _ s _ h in
      let (security, resources) = valid_parts _ _ _ _ valid in
      rw same (
        confined kata_violation profile "bridge" _ _ _ refl refl
          (unprivileged kata_violation _ security) resources)

  kubernetes-IsConfined :
      (b : KubernetesBackend W) (s : Kubernetes.PodSpec)
      → Kubernetes.build_spec b image req profile ≡ ok s
      → IsConfined profile "default" s.security.network_mode s.security.read_only_rootfs s.resources
  unfolding Kubernetes.build_spec Kubernetes.validate_spec
  kubernetes-IsConfined b s h =
      let (same, valid) = checked-ok _ s _ h in
      let (security, resources) = valid_parts _ _ _ _ valid in
      rw same (confined kubernetes_violation profile "default" _ _ _ refl refl security resources)

-- A spec that one of the four backends builds for a profile, from an image and a request of its own,
-- as the network of the dev profile there, and the spec's network, root and resources.
pub data IsBuilt (W : Type 0) (profile : SecurityProfile)
    : String → String → Bool → ResourceSpec → Type 0 where
  containerd :
      (b : ContainerdBackend W) (image : String) (req : ExecuteRequest W)
      (s : Containerd.ContainerSpec)
      → Containerd.build_spec b image req profile ≡ ok s
      → IsBuilt W profile "bridge" s.security.network_mode s.security.read_only_rootfs s.resources
  gvisor :
      (b : GvisorBackend W) (image : String) (req : ExecuteRequest W) (s : Gvisor.SandboxSpec)
      → Gvisor.build_spec b image req profile ≡ ok s
      → IsBuilt W profile b.network_mode s.security.network_mode s.security.read_only_rootfs
          s.resources
  kata :
      (b : KataBackend W) (image : String) (req : ExecuteRequest W) (s : Kata.SandboxSpec)
      → Kata.build_spec b image req profile ≡ ok s
      → IsBuilt W profile "bridge" s.security.network_mode s.security.read_only_rootfs s.resources
  kubernetes :
      (b : KubernetesBackend W) (image : String) (req : ExecuteRequest W) (s : Kubernetes.PodSpec)
      → Kubernetes.build_spec b image req profile ≡ ok s
      → IsBuilt W profile "default" s.security.network_mode s.security.read_only_rootfs s.resources

-- Whatever a request asks for, a spec that the containerd, gVisor, Kata or Kubernetes backend
-- builds for it, whether another of them would or not, is off the host network and has no negative
-- limit; with the standard and the hardened profile it has no network and a read-only root, with the
-- dev profile the network of that profile and a writable root, and with any other profile an empty
-- network mode and a writable root.
pub build_spec-IsConfined :
    {W : Type 0} (profile : SecurityProfile) (dev_network network : String) (read_only : Bool)
    (resources : ResourceSpec)
    → IsBuilt W profile dev_network network read_only resources
    → IsConfined profile dev_network network read_only resources
build_spec-IsConfined profile _ _ _ _ (containerd b image req s h) =
    containerd-IsConfined image req profile b s h
build_spec-IsConfined profile _ _ _ _ (gvisor b image req s h) =
    gvisor-IsConfined image req profile b s h
build_spec-IsConfined profile _ _ _ _ (kata b image req s h) =
    kata-IsConfined image req profile b s h
build_spec-IsConfined profile _ _ _ _ (kubernetes b image req s h) =
    kubernetes-IsConfined image req profile b s h
