-- ===== src/Examples/Catalogs.antt =====
-- A server of two pages.
use general_agent_design.Common.{
  ℕ, ◌≡◌, refl, false, none, some, [], ◌∷◌, eqb, arith, if◌then◌else◌,
}
use general_agent_design.Domain.Errors.{ok}
use general_agent_design.Mcp.Pagination.{
  Catalog, Server, follow, take_page, fetch, collect, collect_paginated,
}
use general_agent_design.Mcp.Pagination.Whole.{offered, collect_paginated-offered}

abbrev server : Server ℕ
server n cursor = ok (
    if eqb n 1
    then record { items = 7 ∷ 8 ∷ []; next_cursor = some "b" }
    else record { items = 9 ∷ []; next_cursor = none })

abbrev catalog : Catalog ℕ
catalog = record { items = 7 ∷ 8 ∷ 9 ∷ []; page_count = 2; truncated = false }

collects : collect_paginated server 3 10 4 ≡ some (ok catalog)
unfolding collect_paginated collect fetch take_page follow
collects = refl

collect_paginated-offered_example : catalog.items ≡ offered server 5 1 none
collect_paginated-offered_example =
    collect_paginated-offered server 3 10 4 5 catalog collects refl (omega arith)
