-- ===== src/Runtime/Kinds.antt =====
-- The constants of runtime/types.go that name the backends and how mature they are.
use toolexec.Base.{String}

abbrev pub backend_unsafe_host : String
backend_unsafe_host = "unsafe_host"

abbrev pub backend_docker : String
backend_docker = "docker"

abbrev pub backend_containerd : String
backend_containerd = "containerd"

abbrev pub backend_kubernetes : String
backend_kubernetes = "kubernetes"

abbrev pub backend_gvisor : String
backend_gvisor = "gvisor"

abbrev pub backend_kata : String
backend_kata = "kata"

abbrev pub backend_firecracker : String
backend_firecracker = "firecracker"

abbrev pub backend_wasm : String
backend_wasm = "wasm"

abbrev pub backend_temporal : String
backend_temporal = "temporal"

abbrev pub backend_remote : String
backend_remote = "remote"

abbrev pub backend_proxmox_lxc : String
backend_proxmox_lxc = "proxmox_lxc"

abbrev pub readiness_prod : String
readiness_prod = "prod"

abbrev pub readiness_beta : String
readiness_beta = "beta"

abbrev pub readiness_stub : String
readiness_stub = "stub"
