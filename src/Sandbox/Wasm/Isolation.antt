-- ===== src/Sandbox/Wasm/Isolation.antt =====
-- What the specs of the WebAssembly backend allow, and how much memory they give.
use toolexec.Base.{
  ℕ, ◌/◌, ◌*◌, ◌==◌, ℤ, pos, negsuc, String, ◌≡◌, refl, Bool, true, false, not, List, [], Option,
  none, some, is_empty, inl, inr, Bool-cases, arith, ltb, str_eq, if◌then◌else◌,
}
use Prim.Native.Nat.{min}
use toolexec.Value.{Value, str, bytes}
use toolexec.Sandbox.Wasm.Base64.{decode_string}
use toolexec.Effects.{Result, ok, err}
use toolexec.Runtime.Types.{SecurityProfile, profile_hardened, ExecuteRequest}
use toolexec.Sandbox.Wasm.{
  WasmBackend, Spec, max_uint32, clamp_uint32, is_wasm_module, checked_module, decoded,
  first_module, with_module, decode_module, decode_module_string, module_from_request, pages_of,
  request_pages, build_spec, prepare_spec,
}

-- the value, where it is positive
abbrev natural : ℤ → ℕ
natural (pos n) = n
natural (negsuc n) = 0

-- The pages that a request with this limit of bytes should get: its own, if it has a limit of a page
-- or more, else the configured ones.
abbrev wanted_pages : ℤ → ℤ → ℕ
wanted_pages memory_bytes configured =
    if ltb (natural memory_bytes) (64 * 1024)
    then natural configured
    else natural memory_bytes / (64 * 1024)

-- The isolation that a spec has for a profile.
pub record IsContained (allowed : List String) (configured memory_bytes : ℤ)
    (profile : SecurityProfile) (s : Spec) : Type 0 where
  pub magic : is_wasm_module s.module_bytes ≡ true
  pub network : s.security.enable_network ≡ false
  pub clock : s.security.enable_clock ≡ not (str_eq profile profile_hardened)
  pub host_functions :
      s.security.allowed_host_functions ≡ (if str_eq profile profile_hardened then [] else allowed)
  pub mounts : s.mounts ≡ []
  pub pages : s.resources.memory_pages ≡ min max_uint32 (wanted_pages memory_bytes configured)

-- The module that is accepted has the magic number.
checked-magic : (m n : List ℕ) → checked_module m ≡ ok n → is_wasm_module n ≡ true
unfolding checked_module
checked-magic m n h = ground arith

decoded-magic :
    (padded raw : Option (List ℕ)) (n : List ℕ)
    → decoded padded raw ≡ ok n
    → is_wasm_module n ≡ true
unfolding decoded
decoded-magic (some m) raw n h = checked-magic m n h
decoded-magic none (some m) n h = checked-magic m n h
decoded-magic none none n h = absurd (ground arith)

decode-magic : (v : Value) (n : List ℕ) → decode_module v ≡ ok n → is_wasm_module n ≡ true
unfolding decode_module decode_module_string
decode-magic (bytes m) n h = checked-magic m n h
decode-magic (str t) n h = elim (Bool-cases (is_empty t)) [
  | inl empty ↦ absurd (ground arith)
  | inr text ↦ decoded-magic (decode_string true t) (decode_string false t) n (rw text at h)
]
decode-magic v n h = absurd (ground arith)

from_request-magic :
    (first second : Option Value) (n : List ℕ)
    → first_module first second ≡ ok n
    → is_wasm_module n ≡ true
unfolding first_module
from_request-magic (some v) second n h = decode-magic v n h
from_request-magic none (some v) n h = decode-magic v n h
from_request-magic none none n h = absurd (ground arith)

not_hardened : (b : Bool) → (if b then false else true) ≡ not b
not_hardened true = refl
not_hardened false = refl

clamp-min : (n : ℕ) → clamp_uint32 n ≡ min max_uint32 n
unfolding clamp_uint32
clamp-min n = ground arith

pages_of-min : (z : ℤ) → pages_of z ≡ min max_uint32 (natural z)
unfolding pages_of
pages_of-min (pos n) = clamp-min n
pages_of-min (negsuc n) = omega arith

less_than_page : (n : ℕ) → (n / (64 * 1024) == 0) ≡ ltb n (64 * 1024)
less_than_page n = ground arith

request_pages-min :
    (memory configured : ℤ)
    → request_pages memory (pages_of configured) ≡ min max_uint32 (wanted_pages memory configured)
unfolding request_pages
request_pages-min (negsuc n) configured = pages_of-min configured
request_pages-min (pos n) configured = elim (Bool-cases (ltb n (64 * 1024))) [
  | inl few ↦ rw (less_than_page n, few) (pages_of-min configured)
  | inr more ↦ rw (less_than_page n, more) (clamp-min (n / (64 * 1024)))
]

module _ {W : Type 0} (b : WasmBackend W) (req : ExecuteRequest W) where
  with_module-ok :
      (s t : Spec) (r : Result (List ℕ))
      → with_module b s r ≡ ok t
      → (m : List ℕ) × (r ≡ ok m) × (t ≡ record s { module_bytes = m })
  unfolding with_module
  with_module-ok s t (ok m) h = (m, refl, ground arith)
  with_module-ok s t (err e) h = absurd (ground arith)

  -- The specs that the WebAssembly backend runs have a module with the magic number, no network, no
  -- mounts and at most 2^32 - 1 pages, whatever the request; with the hardened profile no clock and
  -- no host functions, with any other profile the clock and the configured host functions. Up to
  -- that number of pages, a request that asks for a page of memory or more is given what it asks
  -- for, however small the configured maximum is, and any other the configured maximum.
  pub prepare_spec-IsContained :
      (profile : SecurityProfile) (s : Spec)
      → prepare_spec b req profile ≡ ok s
      → IsContained b.allowed_host_functions b.max_memory_pages req.limits.memory_bytes profile s
  unfolding prepare_spec build_spec module_from_request
  prepare_spec-IsContained profile s h =
      let (m, found, same) = with_module-ok (build_spec b req profile) s _ h in
      rw same (record {
        magic = from_request-magic _ _ m found;
        network = refl;
        clock = not_hardened (str_eq profile profile_hardened);
        host_functions = refl;
        mounts = refl;
        pages = request_pages-min req.limits.memory_bytes b.max_memory_pages;
      })
