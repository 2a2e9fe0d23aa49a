-- ===== src/Runtime/Contract/Laws.antt =====
-- What the contract tests of runtime/contract.go ask of a backend, as laws that hold for every
-- request, and what the tests report under them.
use toolexec.Base.{
  String, ◌≡◌, ◌≢◌, refl, Bool, true, false, not, Option, none, some, List, All, ◌∙◌, [], ◌∷◌,
  is_empty, is_some, eq_refl, if◌then◌else◌,
}
use toolexec.Errors.{Err}
use toolexec.Effects.{Context}
use toolexec.Runtime.Types.{ToolGateway, ExecuteRequest, ExecuteResult, Backend}
use toolexec.Runtime.Limits.{validate_request}
use toolexec.Runtime.Contract.{
  Test, run_tests, fails_if, BackendContract, kind_named, kind_expected, request, refusal_failures,
  gateway_required, code_required, kind_failures, kind_reported, backend_contract_tests,
  run_backend_contract_tests,
}

pub record Conforms {W : Type 0} (b : Backend W) : Type 0 where
  pub named : is_empty b.kind ≡ false
  -- an invalid request is an error
  pub refuses :
      (ctx : Context W) (req : ExecuteRequest W) (w : W)
      → validate_request req ≢ none
      → (b.execute ctx req w).0.1 ≢ none
  -- a result without an error names the kind of the backend
  pub reports :
      (ctx : Context W) (req : ExecuteRequest W) (w : W)
      → (b.execute ctx req w).0.1 ≡ none
      → (b.execute ctx req w).0.0.backend.kind ≡ b.kind

fails_if-not : (b : Bool) (m : String) → b ≡ false → fails_if b m ≡ []
unfolding fails_if
fails_if-not b m h = rw h

-- a test that reports no failure, wherever it begins
abbrev pub Passes : {W : Type 0} → Test W → Type 0
Passes {W} t = (w : W) → ◌≡◌ {A = List String} (t w).0 []

pub run_tests-Passes : {W : Type 0} (ts : List (Test W)) → All Passes ts → Passes (run_tests ts)
unfolding run_tests
run_tests-Passes [] h w = refl
run_tests-Passes (t ∷ ts) (p, ps) w = rw (p w, run_tests-Passes ts ps (t w).1) refl

unless_skipped :
    {W : Type 0} (skip : Bool) (t : Test W) → Passes t → All Passes (if skip then [] else t ∷ [])
unless_skipped true t p = tt
unless_skipped false t p = (p, tt)

not_some : (o : Option Err) → o ≢ none → not (is_some o) ≡ false
not_some none h = absurd (h refl)
not_some (some e) h = refl

module _ {W : Type 0} (background : Context W) (contract : BackendContract W) where
  missing_gateway :
      (code : String) → validate_request (request background contract code none) ≢ none
  unfolding validate_request request
  missing_gateway code h = cc

  missing_code :
      (g : ToolGateway W) → validate_request (request background contract "" (some g)) ≢ none
  unfolding validate_request request
  missing_code g h = cc

  refused :
      (m : String) (out : ExecuteResult × Option Err)
      → out.1 ≢ none
      → refusal_failures background contract m out ≡ []
  unfolding refusal_failures
  refused m (r, e) h = fails_if-not _ m (not_some e h)

  reported :
      (out : ExecuteResult × Option Err)
      → (out.1 ≡ none → out.0.backend.kind ≡ contract.expected_kind)
      → kind_failures background contract out ≡ []
  unfolding kind_failures
  reported (r, none) h = fails_if-not _ _ (rw (h refl, eq_refl) refl)
  reported (r, some e) h = refl

  module _ (made : (w : W) → Conforms (contract.new_backend w).0)
      (kinds : (w : W) → (contract.new_backend w).0.kind ≡ contract.expected_kind) where
    kind_named-Passes : Passes (kind_named background contract)
    unfolding kind_named
    kind_named-Passes w = fails_if-not _ _ (made w).named

    kind_expected-Passes : Passes (kind_expected background contract)
    unfolding kind_expected
    kind_expected-Passes w = fails_if-not _ _ (rw (kinds w, eq_refl) refl)

    gateway_required-Passes : Passes (gateway_required background contract)
    unfolding gateway_required
    gateway_required-Passes w =
        let (b, w1) = contract.new_backend w in
        let req = request background contract "print('hello')" none in
        refused _ (b.execute background req w1).0
          ((made w).refuses background req w1 (missing_gateway "print('hello')"))

    code_required-Passes : Passes (code_required background contract)
    unfolding code_required
    code_required-Passes w =
        let (b, w1) = contract.new_backend w in
        let (g, w2) = contract.new_gateway w1 in
        let req = request background contract "" (some g) in
        refused _ (b.execute background req w2).0
          ((made w).refuses background req w2 (missing_code g))

    kind_reported-Passes : Passes (kind_reported background contract)
    unfolding kind_reported
    kind_reported-Passes w =
        let (b, w1) = contract.new_backend w in
        let (g, w2) = contract.new_gateway w1 in
        let req = request background contract "__out = \"hello\"" (some g) in
        reported (b.execute background req w2).0
          (λ h. (made w).reports background req w2 h ∙ kinds w)

    -- Backends of the expected kind that have the laws report no failure.
    pub run_backend_contract_tests-Passes : Passes (run_backend_contract_tests background contract)
    unfolding run_backend_contract_tests backend_contract_tests
    run_backend_contract_tests-Passes =
        let passed : All Passes (backend_contract_tests background contract) = (
          kind_named-Passes,
          (
            kind_expected-Passes,
            (
              gateway_required-Passes,
              (
                code_required-Passes,
                unless_skipped contract.skip_execution_tests _ kind_reported-Passes,
              ),
            ),
          ),
        ) in
        run_tests-Passes (backend_contract_tests background contract) passed
