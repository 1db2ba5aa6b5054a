-- ===== src/Mcp/Outcome.antt =====
-- The exceptions of agent-harness/src/agent_harness/mcp/config.py, told apart by the `except` clauses there,
-- and results of code that may raise them.
use general_agent_design.Common.{String, ◌≡◌, refl}

-- MCPConfigurationError with its text, and Python's own exceptions. An OverflowError is neither a
-- ValueError nor a TypeError; a UnicodeDecodeError is a ValueError, but no JSONDecodeError.
pub data Failure : Type 0 where
  configuration_error : String → Failure
  os_error json_decode_error unicode_decode_error value_error type_error overflow_error : Failure

pub data Outcome {ℓ} (A : Type ℓ) : Type ℓ where
  good : A → Outcome A
  bad : Failure → Outcome A

infixl 5 ◌>>=◌ ◌>>◌
abbrev pub ◌>>=◌ {ℓ κ} : {A : Type ℓ} {B : Type κ} → Outcome A → (A → Outcome B) → Outcome B
good a >>= f = f a
bad e >>= f = bad e

abbrev pub ◌>>◌ {ℓ κ} : {A : Type ℓ} {B : Type κ} → Outcome A → Outcome B → Outcome B
m >> n = m >>= λ _. n

-- A chain that ends well has a first part that ends well.
pub >>=-good {ℓ κ} :
    {A : Type ℓ} {B : Type κ} (r : Outcome A) (f : A → Outcome B) {b : B}
    → (r >>= f) ≡ good b
    → (a : A) × (r ≡ good a) × (f a ≡ good b)
>>=-good (good a) f h = (a, refl, h)
>>=-good (bad x) f h = absurd cc
