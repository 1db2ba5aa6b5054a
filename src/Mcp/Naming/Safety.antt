-- ===== src/Mcp/Naming/Safety.antt =====
-- A canonical name is one that a model provider accepts: word characters, and not too many of them
-- (canonical_tool_name of agent-harness/src/agent_harness/mcp/naming.py).
use Prim.Native.Nat.{◌/◌, min, max}
use Prim.Native.Char.{Char}
use Prim.Native.String
use Prim.Native.String.{count}
use text.Mathlib.TextLemmas.{length-append, nil-append, cons-append}
use general_agent_design.Common.{
  ℕ, zero, suc, ◌+◌, ◌-◌, ◌≤◌, String, ◌≡◌, refl, ap, ◌∙◌, Bool, true, false, ◌&&◌, ◌==◌, arith,
  if◌then◌else◌,
}
use general_agent_design.Tools.Runtime.{take_text, count-take_text}
use general_agent_design.Tools.Schema.{at}
use general_agent_design.Mcp.Naming.{
  is_word, squeeze, is_underscore, strip_left, strip_right, readable_component, assemble,
  canonical_tool_name,
}

both_true : (a b : Bool) → (a && b) ≡ true → b ≡ true
both_true true b h = h
both_true false b h = absurd cc

both_kept : (a b c : Bool) → (a && b) ≡ true → c ≡ true → (a && c) ≡ true
both_kept true b c h k = k
both_kept false b c h k = absurd cc

-- re.fullmatch("[A-Za-z0-9_]*", s)
abbrev pub all_word : String → Bool
all_word String.[] = true
all_word (String.◌∷◌ c s) = is_word c && all_word s

all_word-append : (s t : String) → all_word (String.◌++◌ s t) ≡ (all_word s && all_word t)
all_word-append String.[] t = ap all_word (nil-append t)
all_word-append (String.◌∷◌ c s) t =
    ap all_word (cons-append c s t) ∙ ground (arith, all_word-append s t)

all_word-take_text : (n : ℕ) (s : String) → all_word s ≡ true → all_word (take_text n s) ≡ true
unfolding take_text
all_word-take_text zero s h = refl
all_word-take_text (suc n) String.[] h = refl
all_word-take_text (suc n) (String.◌∷◌ c s) h = ground (arith, h, all_word-take_text n s)

squeezed :
    (w b : Bool) (c : Char) (kept skipped : String)
    → is_word c ≡ w
    → all_word kept ≡ true
    → all_word skipped ≡ true
    → all_word (if w then String.◌∷◌ c kept else if b then skipped else at "_" skipped) ≡ true
squeezed true b c k s e h g = cc
squeezed false true c k s e h g = g
squeezed false false c k s e h g = all_word-append "_" s ∙ g

all_word-squeeze : (b : Bool) (s : String) → all_word (squeeze b s) ≡ true
unfolding squeeze
all_word-squeeze b String.[] = refl
all_word-squeeze b (String.◌∷◌ c s) =
    squeezed (is_word c) b c (squeeze false s) (squeeze true s) refl (all_word-squeeze false s)
      (all_word-squeeze true s)

tail_word : (c : Char) (s : String) → all_word (String.◌∷◌ c s) ≡ true → all_word s ≡ true
tail_word c s h = both_true (is_word c) (all_word s) h

either_word :
    (b : Bool) (s t : String)
    → all_word s ≡ true
    → all_word t ≡ true
    → all_word (if b then s else t) ≡ true
either_word true s t h g = h
either_word false s t h g = g

all_word-strip_left : (s : String) → all_word s ≡ true → all_word (strip_left s) ≡ true
unfolding strip_left
all_word-strip_left String.[] h = refl
all_word-strip_left (String.◌∷◌ c s) h =
    either_word (is_underscore c) (strip_left s) (String.◌∷◌ c s)
      (all_word-strip_left s (tail_word c s h)) h

all_word-strip_right : (s : String) → all_word s ≡ true → all_word (strip_right s) ≡ true
unfolding strip_right
all_word-strip_right String.[] h = refl
all_word-strip_right (String.◌∷◌ c s) h =
    either_word (is_underscore c && strip_right s == "") "" (String.◌∷◌ c (strip_right s)) refl (
      both_kept (is_word c) (all_word s) (all_word (strip_right s)) h
        (all_word-strip_right s (tail_word c s h)))

all_word-readable_component :
    (ascii : String → String) (s : String) → all_word (readable_component ascii s) ≡ true
unfolding readable_component
all_word-readable_component ascii s =
    let t : String = strip_right (strip_left (squeeze false (ascii s))) in
    either_word (t == "") "item" t refl (
      all_word-strip_right (strip_left (squeeze false (ascii s)))
        (all_word-strip_left (squeeze false (ascii s)) (all_word-squeeze false (ascii s))))

count-assemble :
    (max_length : ℕ) (suffix server tool : String)
    → 11 + count suffix ≤ max_length
    → count (assemble max_length suffix server tool) ≤ max_length
count-assemble m suffix server tool h =
    let available : ℕ = max 2 (m - 7 - 2 - count suffix) in
    let sb : ℕ = max 1 (min (count server) (available / 3)) in
    let tb : ℕ = max 1 (available - sb) in
    let s : String = take_text sb server in
    let t : String = take_text tb tool in
    omega (
      arith,
      h,
      count-take_text sb server,
      count-take_text tb tool,
      length-append "__" suffix,
      length-append t (at "__" suffix),
      length-append "__" (at t (at "__" suffix)),
      length-append s (at "__" (at t (at "__" suffix))),
      length-append "mcp__" (at s (at "__" (at t (at "__" suffix)))),
    )

all_word-assemble :
    (max_length : ℕ) (suffix server tool : String)
    → all_word suffix ≡ true
    → all_word server ≡ true
    → all_word tool ≡ true
    → all_word (assemble max_length suffix server tool) ≡ true
all_word-assemble m suffix server tool h k l =
    let available : ℕ = max 2 (m - 7 - 2 - count suffix) in
    let sb : ℕ = max 1 (min (count server) (available / 3)) in
    let s : String = take_text sb server in
    let t : String = take_text (max 1 (available - sb)) tool in
    ground (
      arith,
      all_word-append "__" suffix,
      all_word-append t (at "__" suffix),
      all_word-append "__" (at t (at "__" suffix)),
      all_word-append s (at "__" (at t (at "__" suffix))),
      all_word-append "mcp__" (at s (at "__" (at t (at "__" suffix)))),
      all_word-take_text sb server k,
      all_word-take_text (max 1 (available - sb)) tool l,
      h,
    )

-- A canonical name has at most `max_length` characters, where that leaves room for the digest's part
-- and eleven more, and nothing but letters, digits and underscores, where the digest has nothing else.
pub canonical_tool_name_safe :
    (ascii : String → String) (digest : String → String → String) (server_name tool_name : String)
    (max_length hash_length : ℕ)
    → 11 + hash_length ≤ max_length
    → all_word (digest server_name tool_name) ≡ true
    → (count (canonical_tool_name ascii digest server_name tool_name max_length hash_length)
        ≤ max_length)
      × (all_word (canonical_tool_name ascii digest server_name tool_name max_length hash_length)
          ≡ true)
unfolding canonical_tool_name
canonical_tool_name_safe ascii digest s t m n h w =
    let suffix : String = take_text n (digest s t) in
    (
      count-assemble m suffix (readable_component ascii s) (readable_component ascii t)
          (omega (arith, h, count-take_text n (digest s t))),
      all_word-assemble m suffix (readable_component ascii s) (readable_component ascii t)
          (all_word-take_text n (digest s t) w) (all_word-readable_component ascii s)
          (all_word-readable_component ascii t),
    )
