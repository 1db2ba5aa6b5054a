-- ===== src/Mcp/Pagination/Whole.antt =====
-- The catalogs of collect_paginated (mcp/pagination.py) against what the server offers.
use mathlib.Core.List.{List}
use general_agent_design.Common.{
  ℕ, zero, suc, ◌+◌, ◌-◌, ◌≤◌, ◌<◌, String, ◌≡◌, refl, ap, ◌∙◌, inl, inr, false, Bool-cases, Option,
  none, some, List, [], ◌++◌, length, take_of_le, append-nil, append_assoc, ltb, arith, ◌==◌, ◌||◌,
  if◌then◌else◌,
}
use general_agent_design.Domain.Errors.{Result, ok, err, ◌>>=◌}
use general_agent_design.Mcp.Pagination.{
  Page, Progress, Catalog, first_page, Round, again, break, repeated, Server, follow, take_page,
  fetch, go_on, collect, collect_paginated,
}

unfoldable after : {A : Type 0} → (String → List A) → Option String → List A
after more none = []
after more (some c) = if c == "" then [] else more c

module _ {A : Type 0} (fetch_page : Server A) where
  -- The items of the pages from the i-th request on, `n` pages at most: what the server offers, read
  -- without limits and without looking at cursors a second time.
  unfoldable pub page_items : (Option String → List A) → Result (Page A) → List A
  page_items rest (err x) = []
  page_items rest (ok page) = page.items ++ rest page.next_cursor

  unfoldable pub offered : ℕ → ℕ → Option String → List A
  unfolding page_items after
  offered zero i cursor = []
  offered (suc n) i cursor =
      page_items (after (λ c. offered n (i + 1) (some c))) (fetch_page i cursor)

module _ {A : Type 0} (max_pages max_items : ℕ) (p : Progress A) (page : Page A) where
  break_whole :
      (c : Catalog A) (more : String → List A)
      → take_page max_pages max_items p page ≡ break c
      → c.truncated ≡ false
      → (c.items ≡ p.items ++ page.items)
        × (c.page_count ≡ p.page_count + 1)
        × (after more page.next_cursor ≡ [])
  unfolding take_page follow after
  break_whole c more h t = ground (arith, take_of_le (max_items - length p.items) page.items)

  again_whole :
      (q : Progress A) (more : Option String → List A)
      → take_page max_pages max_items p page ≡ again q
      → (q.items ≡ p.items ++ page.items)
        × (q.page_count ≡ p.page_count + 1)
        × (after (λ c. more (some c)) page.next_cursor ≡ more q.cursor)
  unfolding take_page follow after
  again_whole q more h = ground (arith, take_of_le (max_items - length p.items) page.items)

module _ {A : Type 0} (fetch_page : Server A) (max_pages max_items : ℕ) where
  -- What `p` lacks of the catalog `c` is what the server offers from there, on as many pages as `c` has
  -- beyond `p` or more.
  record IsWhole (p : Progress A) (c : Catalog A) : Type 0 where
    grows : p.page_count < c.page_count
    rest_of :
        (m : ℕ)
        → c.page_count ≤ p.page_count + m
        → c.items ≡ p.items ++ offered fetch_page m (p.page_count + 1) p.cursor

  break-IsWhole :
      (p : Progress A) (page : Page A) (c : Catalog A)
      → fetch_page (p.page_count + 1) p.cursor ≡ ok page
      → take_page max_pages max_items p page ≡ break c
      → c.truncated ≡ false
      → IsWhole p c
  unfolding offered page_items
  break-IsWhole p page c f h t = record {
    grows = (let w = break_whole max_pages max_items p page c (λ _. []) h t in omega (arith, w.1));
    rest_of = rest;
  }
    where
      rest :
          (m : ℕ)
          → c.page_count ≤ p.page_count + m
          → c.items ≡ p.items ++ offered fetch_page m (p.page_count + 1) p.cursor
      rest zero l =
          absurd (
            let w = break_whole max_pages max_items p page c (λ _. []) h t in omega (arith, w.1, l))
      rest (suc m) l =
          let more = (λ (d : String). offered fetch_page m (p.page_count + 1 + 1) (some d)) in
          let w = break_whole max_pages max_items p page c more h t in
          simp (f, w.0, w.2, append-nil page.items)

  again-IsWhole :
      (p q : Progress A) (page : Page A) (c : Catalog A)
      → fetch_page (p.page_count + 1) p.cursor ≡ ok page
      → take_page max_pages max_items p page ≡ again q
      → IsWhole q c
      → IsWhole p c
  unfolding offered page_items
  again-IsWhole p q page c f h w = record {
    grows =
        (let a = again_whole max_pages max_items p page q (λ _. []) h in
          omega (arith, a.1, w.grows));
    rest_of = rest;
  }
    where
      rest :
          (m : ℕ)
          → c.page_count ≤ p.page_count + m
          → c.items ≡ p.items ++ offered fetch_page m (p.page_count + 1) p.cursor
      rest zero l = absurd (
          let a = again_whole max_pages max_items p page q (λ _. []) h in
          omega (arith, a.1, w.grows, l))
      rest (suc m) l =
          let a =
            again_whole max_pages max_items p page q (offered fetch_page m (p.page_count + 1 + 1))
              h in
          let b = w.rest_of m (omega (arith, a.1, l)) in
          simp (
            f,
            a.2,
            b,
            a.0,
            a.1,
            append_assoc p.items page.items (offered fetch_page m (p.page_count + 1 + 1) q.cursor),
          )

  round-IsWhole :
      (p : Progress A) (c : Catalog A) (next : Progress A → Option (Result (Catalog A)))
      → ((q : Progress A) → next q ≡ some (ok c) → IsWhole q c)
      → (r : Result (Page A)) → fetch_page (p.page_count + 1) p.cursor ≡ r
      → go_on (r >>= λ page. ok (take_page max_pages max_items p page)) next ≡ some (ok c)
      → c.truncated ≡ false
      → IsWhole p c
  round-IsWhole p c next k (err x) f h t = cc
  round-IsWhole p c next k (ok page) f h t = by_round (take_page max_pages max_items p page) refl h
    where
      by_round :
          (x : Round A)
          → take_page max_pages max_items p page ≡ x
          → go_on (ok x) next ≡ some (ok c)
          → IsWhole p c
      by_round (again q) g h' = again-IsWhole p q page c f g (k q h')
      by_round (break d) g h' =
          break-IsWhole p page c f (let same : d ≡ c = cc in g ∙ ap break same) t
      by_round repeated g h' = cc

  collect-IsWhole :
      (fuel : ℕ) (p : Progress A) (c : Catalog A)
      → collect fetch_page max_pages max_items fuel p ≡ some (ok c)
      → c.truncated ≡ false
      → IsWhole p c
  unfolding collect fetch
  collect-IsWhole zero p c h t = cc
  collect-IsWhole (suc fuel) p c h t =
      round-IsWhole p c (collect fetch_page max_pages max_items fuel)
        (λ q h'. collect-IsWhole fuel q c h' t) (fetch_page (p.page_count + 1) p.cursor) refl h t

  -- A catalog that collect_paginated returns without the mark `truncated` holds all items that the
  -- server offers, in order, on as many pages as were read and on any number of pages more.
  pub collect_paginated-offered :
      (fuel m : ℕ) (c : Catalog A)
      → collect_paginated fetch_page max_pages max_items fuel ≡ some (ok c)
      → c.truncated ≡ false
      → c.page_count ≤ m
      → c.items ≡ offered fetch_page m 1 none
  unfolding collect_paginated
  collect_paginated-offered fuel m c h t l =
      elim (Bool-cases (ltb max_pages 1 || ltb max_items 1)) [
        | inl b ↦ ground arith
        | inr b ↦ (collect-IsWhole fuel first_page c (ground arith) t).rest_of m (omega (arith, l))
      ]
