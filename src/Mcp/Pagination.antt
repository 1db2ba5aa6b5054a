-- ===== src/Mcp/Pagination.antt =====
-- agent-harness/src/agent_harness/mcp/pagination.py: collect_paginated. The server is a parameter that
-- answers the n-th request for a cursor with a page, or raises; it may answer one cursor differently
-- each time. The callback on_page is left out.
pub mod Bounds
pub mod Whole
use general_agent_design.Common.{
  ℕ, zero, suc, ◌+◌, ◌-◌, String, Bool, true, false, ◌||◌, Option, none, some, List, [], ◌∷◌, ◌++◌,
  length, take, contains, leb, ltb, ◌==◌, if◌then◌else◌,
}
use general_agent_design.Domain.Errors.{Result, ok, err, ◌>>=◌, value_error, other}

pub record Page {ℓ} (A : Type ℓ) : Type ℓ where
  pub items : List A
  pub next_cursor : Option String

-- The local variables of the loop.
pub record Progress {ℓ} (A : Type ℓ) : Type ℓ where
  pub items : List A
  pub seen_cursors : List String
  pub cursor : Option String
  pub page_count : ℕ

-- The tuple that is returned.
pub record Catalog {ℓ} (A : Type ℓ) : Type ℓ where
  pub items : List A
  pub page_count : ℕ
  pub truncated : Bool

-- What one round of `while True` leads to: the next round, `break`, or an exception.
pub data Round {ℓ} (A : Type ℓ) : Type ℓ where
  again : Progress A → Round A
  break : Catalog A → Round A
  repeated : Round A

abbrev pub Server {ℓ} : Type ℓ → Type ℓ
Server A = ℕ → Option String → Result (Page A)

abbrev pub is_cursor : String → Option String → Bool
is_cursor c none = false
is_cursor c (some d) = c == d

module _ {ℓ} {A : Type ℓ} where
  abbrev pub first_page : Progress A
  first_page = record { items = []; seen_cursors = []; cursor = none; page_count = 0 }

  abbrev pub stop : Bool → Progress A → Round A
  stop truncated p =
      break (record { items = p.items; page_count = p.page_count; truncated = truncated })

  -- The round after the page's items are in.
  unfoldable pub follow : ℕ → Option String → Progress A → Round A
  follow max_pages none p = stop false p
  follow max_pages (some c) p =
      if c == ""
      then stop false p
      else if contains c p.seen_cursors || is_cursor c p.cursor
      then repeated
      else let noted = record p { seen_cursors = c ∷ p.seen_cursors } in
        if leb max_pages p.page_count
        then stop true noted
        else again (record noted { cursor = some c })

  -- One round from the page on.
  unfoldable pub take_page : ℕ → ℕ → Progress A → Page A → Round A
  take_page max_pages max_items p page =
      let remaining = max_items - length p.items in
      let grown = record p {
        items = p.items ++ take remaining page.items;
        page_count = p.page_count + 1;
      } in
      if ltb remaining (length page.items)
      then stop true grown
      else follow max_pages page.next_cursor grown

  unfoldable pub fetch : Server A → ℕ → ℕ → Progress A → Result (Round A)
  fetch fetch_page max_pages max_items p =
      fetch_page (p.page_count + 1) p.cursor >>= λ page. ok (take_page max_pages max_items p page)

  abbrev pub go_on :
      Result (Round A) → (Progress A → Option (Result (Catalog A))) → Option (Result (Catalog A))
  go_on (ok (again p)) rest = rest p
  go_on (ok (break c)) rest = some (ok c)
  go_on (ok repeated) rest = some (err (other "MCP catalog returned a repeated cursor"))
  go_on (err x) rest = some (err x)

  -- The loop on fuel; `none` means that the fuel ran out.
  unfoldable pub collect : Server A → ℕ → ℕ → ℕ → Progress A → Option (Result (Catalog A))
  collect fetch_page max_pages max_items zero p = none
  collect fetch_page max_pages max_items (suc fuel) p =
      go_on (fetch fetch_page max_pages max_items p) (collect fetch_page max_pages max_items fuel)

  -- collect_paginated on fuel
  unfoldable pub collect_paginated : Server A → ℕ → ℕ → ℕ → Option (Result (Catalog A))
  collect_paginated fetch_page max_pages max_items fuel =
      if ltb max_pages 1 || ltb max_items 1
      then some (err (value_error "MCP pagination limits must be positive"))
      else collect fetch_page max_pages max_items fuel first_page
