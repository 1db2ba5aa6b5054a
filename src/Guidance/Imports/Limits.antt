-- ===== src/Guidance/Imports/Limits.antt =====
-- The limits of expand_imports (agent-harness/src/agent_harness/guidance/imports.py).
use general_agent_design.Common.{
  ℕ, zero, suc, ◌+◌, ◌≤◌, String, ◌≡◌, refl, sym, ap, ◌∙◌, Bool, true, false, not, ◌&&◌, Option,
  none, some, List, [], ◌∷◌, length, ltb, leb, ◌==◌, contains, if◌then◌else◌, arith, Bool-cases,
  inl, inr, eq_iff,
}
use general_agent_design.Domain.Errors.{Result, ok, err}
use general_agent_design.Guidance.Imports.{
  ImportLimits, FileContent, decoded, not_utf8, unreadable, Files, Progress, Run, out_of_fuel, done,
  and_then, DiagnosticCode, report, expand_line, prepend, is_fence, absolute_import,
  import_boundary, import_cycle, import_depth, import_count, invalid_utf8, import_bytes, locate,
  inside as inside_of, visit_found, expand_lines, enter, visit, load, nothing_loaded,
  expand_imports,
}

-- The bytes of a file.
abbrev size : FileContent → ℕ
size (decoded n lines) = n
size _ = 0

abbrev pub total_size : Files → List String → ℕ
total_size files [] = 0
total_size files (r ∷ rs) = size (files.read r) + total_size files rs

abbrev pub distinct : List String → Bool
distinct [] = true
distinct (r ∷ rs) = not (contains r rs) && distinct rs

-- A resolved path that lies in the resolved boundary
pub record IsInside (files : Files) (boundary resolved : String) : Type 0 where
  pub root : String
  pub rooted : files.resolve boundary ≡ some root
  pub under : files.is_relative_to resolved root ≡ true
  pub path : String
  pub exists : files.resolve path ≡ some resolved

-- The files that are loaded are at most max_files, all different, each inside the boundary, and their
-- bytes, which are what is counted, at most max_total_bytes.
pub record IsWithin (files : Files) (limits : ImportLimits) (boundary : String) (p : Progress)
    : Type 0 where
  pub few : length p.seen ≤ limits.max_files
  pub small : p.total_bytes ≤ limits.max_total_bytes
  pub exact : p.total_bytes ≡ total_size files p.seen
  pub once : distinct p.seen ≡ true
  pub inside : (r : String) → contains r p.seen ≡ true → IsInside files boundary r

located :
    (files : Files) (boundary path resolved : String) (o r : Option String)
    → files.resolve path ≡ o
    → files.resolve boundary ≡ r
    → inside_of files o r ≡ some resolved
    → IsInside files boundary resolved
located files boundary path resolved none r e f h = absurd cc
located files boundary path resolved (some q) none e f h = absurd cc
located files boundary path resolved (some q) (some root) e f h =
    elim (Bool-cases (files.is_relative_to q root)) [
      | inl y ↦
          let same : q ≡ resolved = ground (arith, y, h) in
          record {
            root = root;
            rooted = f;
            under = ap (λ x. files.is_relative_to x root) (sym same) ∙ y;
            path = path;
            exists = e ∙ ap some same;
          }
      | inr n ↦ absurd (ground (arith, n, h))
    ]

locate-IsInside :
    (files : Files) (boundary path resolved : String)
    → locate files boundary path ≡ some resolved
    → IsInside files boundary resolved
unfolding locate
locate-IsInside files boundary path resolved h =
    located files boundary path resolved (files.resolve path) (files.resolve boundary) refl refl h

module _ (files : Files) (limits : ImportLimits) (boundary : String) where
  -- A call that ends, and keeps what is loaded within the limits.
  pub data IsGood {A : Type 0} (p : Progress) : Run A → Type 0 where
    good :
        {a : Result A} {q : Progress}
        → (IsWithin files limits boundary p → IsWithin files limits boundary q)
        → IsGood p (done a q)

  after-IsGood :
      {B : Type 0} {p q : Progress} {r : Run B}
      → (IsWithin files limits boundary p → IsWithin files limits boundary q)
      → IsGood q r
      → IsGood p r
  after-IsGood k (good l) = good (λ w. l (k w))

  if-IsGood :
      {A : Type 0} (b : Bool) (p : Progress) (r t : Run A)
      → (b ≡ true → IsGood p r)
      → (b ≡ false → IsGood p t)
      → IsGood p (if b then r else t)
  if-IsGood true p r t h k = h refl
  if-IsGood false p r t h k = k refl

  and_then-IsGood :
      {A B : Type 0} (p : Progress) (r : Run A) (f : A → Progress → Run B)
      → IsGood p r
      → ((a : A) (q : Progress) → IsGood q (f a q))
      → IsGood p (and_then r f)
  and_then-IsGood p (done (ok a) q) f (good k) h = after-IsGood k (h a q)
  and_then-IsGood p out_of_fuel f g h = elim g [ ]
  and_then-IsGood p (done (err x) q) f (good k) h = good k

  conclude :
      (r : Run String)
      → IsGood nothing_loaded r
      → (text : Result String) × (p : Progress) × (r ≡ done text p)
        × IsWithin files limits boundary p
  conclude (done text p) (good k) = (
    text,
    p,
    refl,
    k (record {
      few = omega arith;
      small = omega arith;
      exact = refl;
      once = refl;
      inside = λ r h. absurd cc;
    }),
  )
  conclude out_of_fuel g = elim g [ ]

  report-IsWithin :
      (code : DiagnosticCode) (path : String) (p : Progress)
      → IsWithin files limits boundary p
      → IsWithin files limits boundary (report code path p)
  report-IsWithin code path p w = record {
    few = w.few;
    small = w.small;
    exact = w.exact;
    once = w.once;
    inside = w.inside;
  }

  prepend-IsGood :
      (p : Progress) (s : String) (r : Run (List String)) → IsGood p r → IsGood p (prepend s r)
  prepend-IsGood p s r g = and_then-IsGood p r _ g (λ ts q. good (λ w. w))

  expand_line-IsGood :
      (rec : String → Progress → Run String) (resolved line : String)
      (rest : Progress → Run (List String)) (o : Option String) (p : Progress)
      → ((path : String) (q : Progress) → IsGood q (rec path q))
      → ((q : Progress) → IsGood q (rest q))
      → IsGood p (expand_line files limits rec resolved line rest o p)
  expand_line-IsGood rec resolved line rest none p h k = prepend-IsGood p line (rest p) (k p)
  expand_line-IsGood rec resolved line rest (some imported) p h k =
      if-IsGood (files.is_absolute imported) p _ _
        (λ y.
          after-IsGood (report-IsWithin absolute_import imported p)
            (k (report absolute_import imported p)))
        (λ n.
          and_then-IsGood p (rec (files.sibling resolved imported) p) _
            (h (files.sibling resolved imported) p) (λ t q. prepend-IsGood q t (rest q) (k q)))

  expand_lines-IsGood :
      (rec : String → Progress → Run String) (resolved : String) (fence : Bool)
      (lines : List String) (p : Progress)
      → ((path : String) (q : Progress) → IsGood q (rec path q))
      → IsGood p (expand_lines files limits rec resolved fence lines p)
  unfolding expand_lines
  expand_lines-IsGood rec resolved fence [] p h = good (λ w. w)
  expand_lines-IsGood rec resolved fence (line ∷ lines) p h =
      expand_line-IsGood rec resolved line _ _ p h (λ q.
        expand_lines-IsGood rec resolved (if is_fence files.is_space line then not fence else fence)
          lines q h)

  entered-IsWithin :
      (path resolved : String) (n : ℕ) (lines : List String) (p : Progress)
      → locate files boundary path ≡ some resolved
      → files.read resolved ≡ decoded n lines
      → contains resolved p.seen ≡ false
      → leb limits.max_files (length p.seen) ≡ false
      → ltb limits.max_total_bytes (p.total_bytes + n) ≡ false
      → IsWithin files limits boundary p
      → IsWithin files limits boundary
          (record p { seen = resolved ∷ p.seen; total_bytes = p.total_bytes + n })
  entered-IsWithin path resolved n lines p e c new few small w = record {
    few = ground arith;
    small = ground arith;
    exact = omega (arith, w.exact, ap (λ (x : FileContent). size x) c);
    once = ground (arith, w.once);
    inside = λ r h. elim (Bool-cases (r == resolved)) [
      | inl y ↦
          coe 0 1 (i. IsInside files boundary (sym ((eq_iff r resolved).0 y) i))
            (locate-IsInside files boundary path resolved e)
      | inr k ↦ w.inside r (ground (arith, k))
    ];
  }

  enter-IsGood :
      (rec : String → Progress → Run String) (path resolved : String) (c : FileContent)
      (p : Progress)
      → locate files boundary path ≡ some resolved
      → files.read resolved ≡ c
      → contains resolved p.seen ≡ false
      → leb limits.max_files (length p.seen) ≡ false
      → ((path : String) (q : Progress) → IsGood q (rec path q))
      → IsGood p (enter files limits rec resolved c p)
  enter-IsGood rec path resolved not_utf8 p e c new few h =
      good (report-IsWithin invalid_utf8 resolved p)
  enter-IsGood rec path resolved (unreadable m) p e c new few h = good (λ w. w)
  enter-IsGood rec path resolved (decoded n lines) p e c new few h =
      if-IsGood (ltb limits.max_total_bytes (p.total_bytes + n)) p _ _
        (λ y. good (report-IsWithin import_bytes resolved p))
        (λ small. after-IsGood (entered-IsWithin path resolved n lines p e c new few small) (
          and_then-IsGood _ _ _ (expand_lines-IsGood rec resolved false lines _ h)
            (λ output q. good (λ w. w))))

  visit-IsGood :
      (rec : String → Progress → Run String) (path resolved : String) (depth : ℕ)
      (stack : List String) (p : Progress)
      → locate files boundary path ≡ some resolved
      → (depth ≤ limits.max_depth → (path : String) (q : Progress) → IsGood q (rec path q))
      → IsGood p (visit files limits rec resolved depth stack p)
  unfolding visit
  visit-IsGood rec path resolved depth stack p e h =
      if-IsGood (contains resolved stack) p _ _
        (λ y. good (report-IsWithin import_cycle resolved p))
        (λ y.
          if-IsGood (contains resolved p.seen) p _ _ (λ y. good (λ w. w))
            (λ new.
              if-IsGood (ltb limits.max_depth depth) p _ _
                (λ y. good (report-IsWithin import_depth resolved p))
                (λ shallow.
                  if-IsGood (leb limits.max_files (length p.seen)) p _ _
                    (λ y. good (report-IsWithin import_count resolved p))
                    (λ few.
                      enter-IsGood rec path resolved (files.read resolved) p e refl new few
                        (h (ground (arith, shallow)))))))

  visit_found-IsGood :
      (rec : String → String → Progress → Run String) (path : String) (o : Option String)
      (depth : ℕ) (stack : List String) (p : Progress)
      → locate files boundary path ≡ o
      → (depth ≤ limits.max_depth
          → (resolved path : String) (q : Progress) → IsGood q (rec resolved path q))
      → IsGood p (visit_found files limits rec path o depth stack p)
  visit_found-IsGood rec path none depth stack p e h = good (report-IsWithin import_boundary path p)
  visit_found-IsGood rec path (some resolved) depth stack p e h =
      visit-IsGood (rec resolved) path resolved depth stack p e (λ d. h d resolved)

  load-IsGood :
      (n : ℕ) (path : String) (depth : ℕ) (stack : List String) (p : Progress)
      → depth ≤ suc limits.max_depth
      → limits.max_depth + 2 ≤ n + depth
      → IsGood p (load files limits boundary n path depth stack p)
  unfolding load
  load-IsGood zero path depth stack p d f = absurd (omega arith)
  load-IsGood (suc n) path depth stack p d f =
      visit_found-IsGood _ path (locate files boundary path) depth stack p refl
        (λ s resolved next q.
          load-IsGood n next (suc depth) (resolved ∷ stack) q (omega arith) (omega arith))

  -- expand_imports ends, for files that import each other in any way. The files that it has loaded
  -- are at most max_files, are all different, exist and lie under the resolved boundary, and their bytes
  -- together are at most max_total_bytes.
  pub expand_imports-IsWithin :
      (path : String)
      → (text : Result String) × (p : Progress) × (expand_imports files limits path boundary
          ≡ done text p)
        × IsWithin files limits boundary p
  unfolding expand_imports
  expand_imports-IsWithin path =
      conclude _
        (load-IsGood (limits.max_depth + 2) path 0 [] nothing_loaded (omega arith) (omega arith))
