-- ===== src/Mcp/Pagination/Bounds.antt =====
-- The limits of collect_paginated (mcp/pagination.py).
use general_agent_design.Common.{
  ℕ, zero, suc, ◌+◌, ◌-◌, ◌≤◌, ◌<◌, String, ◌≡◌, refl, inl, inr, Bool, true, false, Bool-cases,
  Option, none, some, ◌++◌, length, take, length-append, length-take, ltb, arith, ◌||◌,
  if◌then◌else◌,
}
use general_agent_design.Domain.Errors.{Result, ok, err, value_error, ◌>>=◌}
use general_agent_design.Mcp.Pagination.{
  Page, Progress, Catalog, first_page, Round, again, break, repeated, Server, follow, take_page,
  fetch, go_on, collect, collect_paginated,
}

module _ {A : Type 0} (fetch_page : Server A) (max_pages max_items : ℕ) where
  -- A round's progress: pages and items within the limits.
  record IsBounded (p : Progress A) : Type 0 where
    pages_left : p.page_count < max_pages
    items_fit : length p.items ≤ max_items

  record IsWithin (c : Catalog A) : Type 0 where
    pub pages_fit : c.page_count ≤ max_pages
    pub catalog_fits : length c.items ≤ max_items

  abbrev IsFine : ℕ → Round A → Type 0
  IsFine n (again q) = IsBounded q × (q.page_count ≡ n + 1)
  IsFine n (break c) = IsWithin c
  IsFine n repeated = Unit {0}

  follow-IsFine :
      (n : ℕ) (next : Option String) (p : Progress A)
      → n < max_pages
      → p.page_count ≡ n + 1
      → length p.items ≤ max_items
      → IsFine n (follow max_pages next p)
  unfolding follow
  follow-IsFine n none p h k l = ground arith
  follow-IsFine n (some c) p h k l = ground arith

  IsFine-if :
      (n : ℕ) (b : Bool) (x y : Round A) → IsFine n x → IsFine n y → IsFine n (if b then x else y)
  IsFine-if n true x y f g = f
  IsFine-if n false x y f g = g

  take_page-IsFine :
      (p : Progress A) (page : Page A)
      → IsBounded p
      → IsFine p.page_count (take_page max_pages max_items p page)
  unfolding take_page
  take_page-IsFine p page b =
      let remaining = max_items - length p.items in
      let fit : length (p.items ++ take remaining page.items) ≤ max_items = omega (
        arith,
        length-append p.items (take remaining page.items),
        length-take remaining page.items,
        b.items_fit,
      ) in
      IsFine-if p.page_count (ltb remaining (length page.items)) _ _
        (record { pages_fit = omega (arith, b.pages_left); catalog_fits = fit })
        (follow-IsFine p.page_count page.next_cursor _ b.pages_left refl fit)

  fetch_ok :
      (p : Progress A) (x : Round A)
      → IsBounded p
      → fetch fetch_page max_pages max_items p ≡ ok x
      → IsFine p.page_count x
  unfolding fetch
  fetch_ok p x b h = from_page (fetch_page (p.page_count + 1) p.cursor) h
    where
      from_page :
          (r : Result (Page A))
          → (r >>= λ page. ok (take_page max_pages max_items p page)) ≡ ok x
          → IsFine p.page_count x
      from_page (ok page) q =
          let same : take_page max_pages max_items p page ≡ x = cc in
          coe 0 1 (i. IsFine p.page_count (same i)) (take_page-IsFine p page b)
      from_page (err y) q = cc

  -- What the rest of the loop makes of one round.
  go_on_total :
      (fuel : ℕ) (p : Progress A) (r : Result (Round A))
      → ((x : Round A) → r ≡ ok x → IsFine p.page_count x)
      → ((q : Progress A)
          → IsBounded q
          → q.page_count ≡ p.page_count + 1
          → (y : Result (Catalog A)) × (collect fetch_page max_pages max_items fuel q ≡ some y)
            × ((c : Catalog A) → y ≡ ok c → IsWithin c))
      → (y : Result (Catalog A)) × (go_on r (collect fetch_page max_pages max_items fuel) ≡ some y)
        × ((c : Catalog A) → y ≡ ok c → IsWithin c)
  go_on_total fuel p (ok (again q)) f k = let (b, e) = f (again q) refl in k q b e
  go_on_total fuel p (ok (break c)) f k =
      let w = f (break c) refl in (ok c, refl, λ d e. ground (arith, w))
  go_on_total fuel p (ok repeated) f k = (_, refl, λ d e. cc)
  go_on_total fuel p (err x) f k = (_, refl, λ d e. cc)

  collect_total :
      (fuel : ℕ) (p : Progress A)
      → IsBounded p
      → max_pages < p.page_count + fuel
      → (y : Result (Catalog A)) × (collect fetch_page max_pages max_items fuel p ≡ some y)
        × ((c : Catalog A) → y ≡ ok c → IsWithin c)
  unfolding collect
  collect_total zero p b h = absurd (omega (arith, b.pages_left))
  collect_total (suc fuel) p b h =
      go_on_total fuel p (fetch fetch_page max_pages max_items p) (λ x. fetch_ok p x b)
        (λ q b' e. collect_total fuel q b' (omega arith))

  collect_paginated_both :
      (fuel : ℕ)
      → max_pages < fuel
      → (y : Result (Catalog A)) × (collect_paginated fetch_page max_pages max_items fuel ≡ some y)
        × ((c : Catalog A) → y ≡ ok c → IsWithin c)
  unfolding collect_paginated
  collect_paginated_both fuel h = elim (Bool-cases (ltb max_pages 1 || ltb max_items 1)) [
    | inl c ↦ (err (value_error "MCP pagination limits must be positive"), simp (c), λ d e. cc)
    | inr c ↦
        let (y, p, w) =
          collect_total fuel first_page
            (record { pages_left = ground arith; items_fit = ground arith }) (omega (arith, h)) in
        (y, ground arith, w)
  ]

  -- collect_paginated ends, with fuel for one page more than max_pages, whatever the server answers.
  pub collect_paginated_total :
      (fuel : ℕ)
      → max_pages < fuel
      → (y : Result (Catalog A)) × (collect_paginated fetch_page max_pages max_items fuel ≡ some y)
  collect_paginated_total fuel h = let (y, p, w) = collect_paginated_both fuel h in (y, p)

  -- With that fuel, a catalog that collect_paginated returns has at most max_pages pages and at most
  -- max_items items.
  collect_paginated-IsWithin :
      (fuel : ℕ) (c : Catalog A)
      → max_pages < fuel
      → collect_paginated fetch_page max_pages max_items fuel ≡ some (ok c)
      → IsWithin c
  collect_paginated-IsWithin fuel c h e = let (y, p, w) = collect_paginated_both fuel h in w c cc
