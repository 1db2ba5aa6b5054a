-- ===== src/Domain/Errors.antt =====
-- agent-harness/src/agent_harness/domain/errors.py: the exception classes, what a serialised error
-- keeps of them, and results of code that may raise. The `details` of an error are left out.
use general_agent_design.Common.{String, ◌≡◌, refl, ◌⊎◌, inl, inr, Bool, true, false}

-- One constructor for each subclass of `HarnessError`, and the class itself.
pub data ErrorClass : Type 0 where
  harness configuration provider provider_timeout provider_rate_limit : ErrorClass
  provider_authentication provider_protocol context_limit tool_not_found : ErrorClass
  tool_input_validation tool_authorization tool_execution tool_timeout : ErrorClass
  workspace_boundary budget_exceeded cancellation internal_invariant artifact : ErrorClass

unfoldable pub code : ErrorClass → String
code harness = "HARNESS_ERROR"
code configuration = "CONFIGURATION_ERROR"
code provider = "PROVIDER_ERROR"
code provider_timeout = "PROVIDER_TIMEOUT"
code provider_rate_limit = "PROVIDER_RATE_LIMIT"
code provider_authentication = "PROVIDER_AUTHENTICATION"
code provider_protocol = "PROVIDER_PROTOCOL_ERROR"
code context_limit = "CONTEXT_LIMIT_EXCEEDED"
code tool_not_found = "TOOL_NOT_FOUND"
code tool_input_validation = "TOOL_INPUT_VALIDATION"
code tool_authorization = "TOOL_AUTHORIZATION"
code tool_execution = "TOOL_EXECUTION_ERROR"
code tool_timeout = "TOOL_TIMEOUT"
code workspace_boundary = "WORKSPACE_BOUNDARY"
code budget_exceeded = "LIMIT_REACHED"
code cancellation = "CANCELLED"
code internal_invariant = "INTERNAL_INVARIANT"
code artifact = "ARTIFACT_ERROR"

unfoldable pub category : ErrorClass → String
category harness = "internal"
category configuration = "configuration"
category provider = "provider"
category provider_timeout = "provider"
category provider_rate_limit = "provider"
category provider_authentication = "provider"
category provider_protocol = "provider"
category context_limit = "context"
category tool_not_found = "tool"
category tool_input_validation = "tool"
category tool_authorization = "tool"
category tool_execution = "tool"
category tool_timeout = "tool"
category workspace_boundary = "tool"
category budget_exceeded = "budget"
category cancellation = "cancellation"
category internal_invariant = "internal"
category artifact = "artifact"

unfoldable pub recoverable : ErrorClass → Bool
recoverable provider_timeout = true
recoverable provider_rate_limit = true
recoverable tool_not_found = true
recoverable tool_input_validation = true
recoverable tool_authorization = true
recoverable tool_execution = true
recoverable tool_timeout = true
recoverable workspace_boundary = true
recoverable _ = false

pub record HarnessError : Type 0 where
  pub class : ErrorClass
  pub message : String

pub record RunError : Type 0 where
  pub code : String
  pub message : String
  pub category : String
  pub recoverable : Bool

-- HarnessError.to_run_error
unfoldable pub to_run_error : HarnessError → RunError
unfolding code category recoverable
to_run_error e = record {
  code = code e.class;
  message = e.message;
  category = category e.class;
  recoverable = recoverable e.class;
}

-- What Python code raises: one of the program's errors, asyncio's cancellation or timeout, or any
-- other exception with its text.
pub data Exception : Type 0 where
  raised : HarnessError → Exception
  value_error : String → Exception
  cancelled : Exception
  timed_out : Exception
  other : String → Exception

pub data Result {ℓ} (A : Type ℓ) : Type ℓ where
  ok : A → Result A
  err : Exception → Result A

infixl 5 ◌>>=◌
abbrev pub ◌>>=◌ {ℓ κ} : {A : Type ℓ} {B : Type κ} → Result A → (A → Result B) → Result B
ok a >>= f = f a
err e >>= f = err e

abbrev pub fail {ℓ} : {A : Type ℓ} → ErrorClass → String → Result A
fail c m = err (raised (record { class = c; message = m }))

pub Result-cases {ℓ} :
    {A : Type ℓ} (r : Result A) → ((a : A) × (r ≡ ok a)) ⊎ ((e : Exception) × (r ≡ err e))
Result-cases (ok a) = inl (a, refl)
Result-cases (err e) = inr (e, refl)

-- A chain that ends well has a first part that ends well.
pub >>=-ok {ℓ κ} :
    {A : Type ℓ} {B : Type κ} (r : Result A) (f : A → Result B) {b : B}
    → (r >>= f) ≡ ok b
    → (a : A) × (r ≡ ok a) × (f a ≡ ok b)
>>=-ok (ok a) f h = (a, refl, h)
>>=-ok (err x) f h = absurd cc
