-- ===== src/Runtime/Contract/Backends.antt =====
-- The backends of the repository under the contract tests of runtime/contract.go.
use toolexec.Base.{ℕ, ℤ, String, ◌≡◌, refl, Option, []}
use toolexec.Value.{Value}
use toolexec.Effects.{Context}
use toolexec.Runtime.Kinds.{
  backend_docker, backend_containerd, backend_gvisor, backend_kata, backend_kubernetes,
  backend_firecracker, backend_wasm, backend_remote, backend_temporal, backend_unsafe_host,
}
use toolexec.Runtime.Types.{Backend}
use toolexec.Runtime.Contract.{BackendContract, run_backend_contract_tests}
use toolexec.Runtime.Contract.Laws.{Conforms, run_backend_contract_tests-Passes}
use toolexec.Docker.Execution
use toolexec.Docker.Execution.{DockerBackend}
use toolexec.Docker.Execution.Conformance as DockerConformance
use toolexec.Sandbox.Conformance.{execute-Conforms}
use toolexec.Sandbox.Containerd
use toolexec.Sandbox.Containerd.{ContainerdBackend}
use toolexec.Sandbox.Gvisor
use toolexec.Sandbox.Gvisor.{GvisorBackend}
use toolexec.Sandbox.Kata
use toolexec.Sandbox.Kata.{KataBackend}
use toolexec.Sandbox.Kubernetes
use toolexec.Sandbox.Kubernetes.{KubernetesBackend}
use toolexec.Sandbox.Firecracker
use toolexec.Sandbox.Firecracker.{FirecrackerBackend}
use toolexec.Sandbox.Wasm
use toolexec.Sandbox.Wasm.{WasmBackend}
use toolexec.Remote
use toolexec.Remote.{RemoteBackend}
use toolexec.Remote.Conformance as RemoteConformance
use toolexec.Temporal
use toolexec.Temporal.{TemporalBackend}
use toolexec.Temporal.Conformance as TemporalConformance
use toolexec.Unsafe
use toolexec.Unsafe.{UnsafeBackend, Host}
use toolexec.Unsafe.Conformance as UnsafeConformance

module _ {W : Type 0} (unmarshal : String → Option Value) (now : W → ℕ)
    (with_timeout : ℤ → Context W → Context W) where
  -- The backends of the repository, with the kind of each.
  pub data IsProvided : String → Backend W → Type 0 where
    docker :
        (b : DockerBackend W)
        → IsProvided backend_docker (Execution.as_backend unmarshal now with_timeout b)
    containerd :
        (b : ContainerdBackend W)
        → IsProvided backend_containerd (Containerd.as_backend b unmarshal now with_timeout)
    gvisor :
        (b : GvisorBackend W)
        → IsProvided backend_gvisor (Gvisor.as_backend b unmarshal now with_timeout)
    kata :
        (b : KataBackend W) → IsProvided backend_kata (Kata.as_backend b unmarshal now with_timeout)
    kubernetes :
        (b : KubernetesBackend W)
        → IsProvided backend_kubernetes (Kubernetes.as_backend b unmarshal now with_timeout)
    firecracker :
        (b : FirecrackerBackend W)
        → IsProvided backend_firecracker (Firecracker.as_backend b unmarshal now with_timeout)
    wasm :
        (b : WasmBackend W) → IsProvided backend_wasm (Wasm.as_backend b unmarshal now with_timeout)
    remote :
        (b : RemoteBackend W) → IsProvided backend_remote (Remote.as_backend b now with_timeout)
    temporal : (b : TemporalBackend W) → IsProvided backend_temporal (Temporal.as_backend now b)
    unsafe_host :
        (host : Host W) (b : UnsafeBackend W)
        → IsProvided backend_unsafe_host (Unsafe.as_backend unmarshal now with_timeout host b)

  IsProvided-kind : (kind : String) (b : Backend W) → IsProvided kind b → b.kind ≡ kind
  unfolding Execution.as_backend Containerd.as_backend Gvisor.as_backend Kata.as_backend
      Kubernetes.as_backend Firecracker.as_backend Wasm.as_backend Remote.as_backend
      Temporal.as_backend Unsafe.as_backend
  IsProvided-kind _ _ (docker b) = refl
  IsProvided-kind _ _ (containerd b) = refl
  IsProvided-kind _ _ (gvisor b) = refl
  IsProvided-kind _ _ (kata b) = refl
  IsProvided-kind _ _ (kubernetes b) = refl
  IsProvided-kind _ _ (firecracker b) = refl
  IsProvided-kind _ _ (wasm b) = refl
  IsProvided-kind _ _ (remote b) = refl
  IsProvided-kind _ _ (temporal b) = refl
  IsProvided-kind _ _ (unsafe_host host b) = refl

  IsProvided-Conforms : (kind : String) (b : Backend W) → IsProvided kind b → Conforms b
  unfolding Containerd.as_backend Gvisor.as_backend Kata.as_backend Kubernetes.as_backend
      Firecracker.as_backend Wasm.as_backend Containerd.execute Gvisor.execute Kata.execute
      Kubernetes.execute Firecracker.execute Wasm.execute
  IsProvided-Conforms _ _ (docker b) =
      DockerConformance.as_backend-Conforms unmarshal now with_timeout b
  IsProvided-Conforms _ _ (containerd b) =
      execute-Conforms unmarshal now with_timeout (Containerd.as_sandbox b) backend_containerd
        (λ p. refl) refl
  IsProvided-Conforms _ _ (gvisor b) =
      execute-Conforms unmarshal now with_timeout (Gvisor.as_sandbox b) backend_gvisor (λ p. refl)
        refl
  IsProvided-Conforms _ _ (kata b) =
      execute-Conforms unmarshal now with_timeout (Kata.as_sandbox b) backend_kata (λ p. refl) refl
  IsProvided-Conforms _ _ (kubernetes b) =
      execute-Conforms unmarshal now with_timeout (Kubernetes.as_sandbox b) backend_kubernetes
        (λ p. refl) refl
  IsProvided-Conforms _ _ (firecracker b) =
      execute-Conforms unmarshal now with_timeout (Firecracker.as_sandbox b) backend_firecracker
        (λ p. refl) refl
  IsProvided-Conforms _ _ (wasm b) =
      execute-Conforms unmarshal now with_timeout (Wasm.as_sandbox b) backend_wasm (λ p. refl) refl
  IsProvided-Conforms _ _ (remote b) = RemoteConformance.as_backend-Conforms b now with_timeout
  IsProvided-Conforms _ _ (temporal b) = TemporalConformance.as_backend-Conforms now b
  IsProvided-Conforms _ _ (unsafe_host host b) =
      UnsafeConformance.as_backend-Conforms unmarshal now with_timeout host b

  -- The backend of Docker, containerd, gVisor, Kata, Kubernetes, Firecracker, WebAssembly, a remote
  -- service, Temporal or the unsafe host, however it is configured and whatever its client does,
  -- passes every contract test for its kind: it names that kind, an execution with no gateway or no
  -- code is an error, and one without an error names that kind too.
  pub run_backend_contract_tests-nil :
      (background : Context W) (contract : BackendContract W)
      → ((w : W) → IsProvided contract.expected_kind (contract.new_backend w).0)
      → (w : W) → (run_backend_contract_tests background contract w).0 ≡ []
  run_backend_contract_tests-nil background contract provided =
      run_backend_contract_tests-Passes background contract
        (λ w. IsProvided-Conforms contract.expected_kind (contract.new_backend w).0 (provided w))
        (λ w. IsProvided-kind contract.expected_kind (contract.new_backend w).0 (provided w))
