-- ===== src/Mcp/Naming.antt =====
-- agent-harness/src/agent_harness/mcp/naming.py. `ascii` is what is left of a text in ASCII after NFKD
-- normalization, and `digest` the hexadecimal SHA-256 of a text.
pub mod Safety
use Prim.Native.Nat.{◌/◌, min, max}
use Prim.Native.Char.{Char, code}
use Prim.Native.String
use Prim.Native.String.{count}
use general_agent_design.Common.{
  ℕ, ◌-◌, String, Bool, true, false, ◌&&◌, ◌||◌, ◌==◌, leb, eqb, if◌then◌else◌,
}
use general_agent_design.Tools.Runtime.{take_text}
use general_agent_design.Tools.Schema.{at}

abbrev pub within : ℕ → ℕ → Char → Bool
within low high c = leb low (code c) && leb (code c) high

-- [A-Za-z0-9_]
abbrev pub is_word : Char → Bool
is_word c = within 65 90 c || (within 97 122 c || (within 48 57 c || eqb (code c) 95))

-- re.sub(r"[^A-Za-z0-9_]+", "_", s), inside such a run or not
unfoldable pub squeeze : Bool → String → String
squeeze in_run String.[] = ""
squeeze in_run (String.◌∷◌ c s) =
    let kept = squeeze false s in
    let skipped = squeeze true s in
    if is_word c then String.◌∷◌ c kept else if in_run then skipped else at "_" skipped

abbrev pub is_underscore : Char → Bool
is_underscore c = eqb (code c) 95

-- s.lstrip("_"), s.rstrip("_")
unfoldable pub strip_left : String → String
strip_left String.[] = ""
strip_left (String.◌∷◌ c s) =
    let rest = strip_left s in if is_underscore c then rest else String.◌∷◌ c s

unfoldable pub strip_right : String → String
strip_right String.[] = ""
strip_right (String.◌∷◌ c s) =
    let rest = strip_right s in if is_underscore c && rest == "" then "" else String.◌∷◌ c rest

abbrev pub or_item : String → String
or_item s = if s == "" then "item" else s

-- _readable_component
unfoldable pub readable_component : (String → String) → String → String
readable_component ascii s = or_item (strip_right (strip_left (squeeze false (ascii s))))

-- The name of the parts that are cut to a length
abbrev pub assemble : ℕ → String → String → String → String
assemble max_length suffix server tool =
    let available = max 2 (max_length - 7 - 2 - count suffix) in
    let server_budget = max 1 (min (count server) (available / 3)) in
    let tool_budget = max 1 (available - server_budget) in
    at "mcp__" (
      at (take_text server_budget server)
        (at "__" (at (take_text tool_budget tool) (at "__" suffix))))

-- canonical_tool_name; the texts that are hashed are divided by a NUL.
unfoldable pub canonical_tool_name :
    (String → String) → (String → String → String) → String → String → ℕ → ℕ → String
canonical_tool_name ascii digest server_name tool_name max_length hash_length =
    assemble max_length (take_text hash_length (digest server_name tool_name))
      (readable_component ascii server_name) (readable_component ascii tool_name)
