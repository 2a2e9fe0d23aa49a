-- ===== src/Tests/Sandboxes.antt =====
-- The theorems on the backends that run a request in a sandbox of another program.
use toolexec.Base.{
  ℕ, suc, ℤ, ◌≡◌, refl, true, false, pos, none, some, List, [], ◌∷◌, if◌then◌else◌, arith,
}
use toolexec.Value.{get, str, bytes, field, end}
use toolexec.Effects.{ok, Context}
use toolexec.Runtime.Types.{profile_hardened, ExecuteRequest}
use toolexec.Docker.Options.{positive_times_1000}
use toolexec.Sandbox.{Sandbox, Client}
use toolexec.Sandbox.Limits.{
  resources_of, isolation_of, checked, validate_network, validate_security, validate_resources,
}
use toolexec.Sandbox.Safety.{ServicesKeep, RunsKeep, Builds, execute_built-Keeps}
use toolexec.Sandbox
use toolexec.Sandbox.Containerd
use toolexec.Sandbox.Gvisor
use toolexec.Sandbox.Kata
use toolexec.Sandbox.Kubernetes
use toolexec.Sandbox.Wasm.{
  WasmBackend, Spec, prepare_spec, decode_module, is_wasm_module, as_sandbox,
}
use toolexec.Sandbox.Wasm
use toolexec.Sandbox.Wasm.Base64.{digits_of}
use toolexec.Sandbox.Wasm.Base64.RoundTrip.{encode}
use toolexec.Sandbox.Wasm.Modules.{decode_module-encode}
use toolexec.Sandbox.Wasm.Isolation.{IsContained, prepare_spec-IsContained}
use toolexec.Sandbox.Confinement
use toolexec.Sandbox.Confinement.{IsConfined, build_spec-IsConfined}
use toolexec.Tests.Fixture.{live, no_json}
use toolexec.Tests.Runtimes.{request}

-- the magic number and the version
abbrev module_bytes : List ℕ
module_bytes = 0 ∷ 0x61 ∷ 0x73 ∷ 0x6d ∷ 1 ∷ 0 ∷ 0 ∷ 0 ∷ []

decode_module-encode_example :
    (decode_module (str "AGFzbQEAAAA=\n") ≡ ok module_bytes)
    × (decode_module (bytes module_bytes) ≡ ok module_bytes)
unfolding is_wasm_module digits_of encode
decode_module-encode_example =
    decode_module-encode true module_bytes "AGFzbQEAAAA=\n"
      (
        omega arith,
        (
          omega arith,
          (omega arith, (omega arith, (omega arith, (omega arith, (omega arith, omega arith))))),
        ),
      )
      refl refl

-- A client that counts the runs with a network.
abbrev network_client : Client ℕ Spec
network_client ctx spec w = (
  ok (record { stdout = ""; stderr = ""; duration = 0 }),
  if spec.security.enable_network then suc w else w,
)

abbrev wasm : WasmBackend ℕ
wasm = record {
  runtime = "wazero";
  max_memory_pages = pos 256;
  enable_wasi = true;
  allowed_host_functions = "log" ∷ [];
  client = some network_client;
  health_checker = none;
  logger = none;
}

abbrev wasm_request : ExecuteRequest ℕ
wasm_request = record request { metadata = field "wasm_module" (bytes module_bytes) end }

abbrev wasm_spec : Spec
unfolding Wasm.build_spec
wasm_spec = record (Wasm.build_spec wasm wasm_request profile_hardened) {
  module_bytes = module_bytes;
}

prepare_spec-IsContained_example :
    IsContained ("log" ∷ []) (pos 256) (pos 0) profile_hardened wasm_spec
unfolding prepare_spec Wasm.build_spec Wasm.module_from_request decode_module is_wasm_module get
prepare_spec-IsContained_example =
    prepare_spec-IsContained wasm wasm_request profile_hardened wasm_spec refl

abbrev with_timeout : ℤ → Context ℕ → Context ℕ
with_timeout t ctx = ctx

abbrev now : ℕ → ℕ
now w = w

abbrev IsOffline : Spec → Type 0
IsOffline s = s.security.enable_network ≡ false

wasm_specs :
    Builds (λ (w : ℕ). w ≡ 0) IsOffline no_json now with_timeout (as_sandbox wasm) wasm_request
unfolding as_sandbox
wasm_specs image s h = (prepare_spec-IsContained wasm wasm_request "standard" s h).network

runs_without_network : RunsKeep (λ (w : ℕ). w ≡ 0) IsOffline (as_sandbox wasm)
unfolding as_sandbox
runs_without_network run ctx spec e offline =
    let same : run ≡ network_client = cc in rw same (record { at = λ w h. rw offline h })

wasm_services : ServicesKeep (λ w. w ≡ 0) (as_sandbox wasm)
unfolding as_sandbox
wasm_services = record {
  logger = λ write msg w e p. absurd cc;
  health = λ ping ctx e. absurd cc;
  resolver = λ resolve ctx e. absurd cc;
}

execute_built-Keeps_example :
    (Sandbox.execute no_json now with_timeout (as_sandbox wasm) live wasm_request 0).1 ≡ 0
execute_built-Keeps_example =
    execute_built-Keeps (λ w. w ≡ 0) IsOffline no_json now with_timeout (as_sandbox wasm) live
      wasm_request 0 wasm_specs runs_without_network (record { at = λ w h. h })
      (record { at = λ w h. h }) wasm_services refl

abbrev containerd : Containerd.ContainerdBackend ℕ
containerd = record {
  image_ref = "image";
  namespace = "default";
  socket_path = "";
  runtime = "runc";
  seccomp = "seccomp.json";
  client = none;
  resolver = none;
  health = none;
  logger = none;
}

abbrev gvisor : Gvisor.GvisorBackend ℕ
gvisor = record {
  runsc_path = "runsc";
  root_dir = "";
  platform = "systrap";
  network_mode = "none";
  image = "image";
  client = none;
  resolver = none;
  health = none;
  logger = none;
}

abbrev kata : Kata.KataBackend ℕ
kata = record {
  runtime_path = "kata-runtime";
  hypervisor = "qemu";
  kernel_path = "";
  image_path = "";
  image = "image";
  client = none;
  resolver = none;
  health = none;
  logger = none;
}

abbrev kubernetes : Kubernetes.KubernetesBackend ℕ
kubernetes = record {
  namespace = "default";
  image = "image";
  runtime_class_name = "";
  service_account = "";
  client = none;
  client_health = none;
  resolver = none;
  health = none;
  logger = none;
}

abbrev kata_spec : Kata.SandboxSpec
kata_spec = Kata.spec_of kata "image" request profile_hardened

kata-built : Kata.build_spec kata "image" request profile_hardened ≡ ok kata_spec
unfolding Kata.build_spec Kata.validate_spec checked resources_of isolation_of positive_times_1000
    validate_network validate_security validate_resources
kata-built = refl

build_spec-IsConfined_example :
    IsConfined profile_hardened "bridge" kata_spec.security.network_mode
      kata_spec.security.read_only_rootfs kata_spec.resources
build_spec-IsConfined_example =
    build_spec-IsConfined profile_hardened "bridge" kata_spec.security.network_mode
      kata_spec.security.read_only_rootfs kata_spec.resources
      (Confinement.kata kata "image" request kata_spec kata-built)
