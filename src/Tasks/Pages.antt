-- ===== src/Tasks/Pages.antt =====
-- The pages of a list of tasks, read one after the other.
use a2a_platform_go.Prelude.{
  ℕ, zero, suc, ◌+◌, ◌-◌, ◌*◌, ◌≤◌, String, ◌≡◌, refl, sym, ◌∙◌, ap, subst, Bool, false, List, [],
  ◌∷◌, ◌++◌, take, length, select, arith, ◌=?◌,
}
use a2a_platform_go.Sql.{Env, World, Sql, Result, ok, pure, ◌>>=◌}
use a2a_platform_go.Sql.Invert.{bind_ok, query_ok, query_same, ok_same}
use a2a_platform_go.Tasks.{
  PlatformTask, Table, Filter, matches, drop, scan, scan_all, page_of, count, list_page,
  list_by_filter,
}

no_pages : (size : ℕ) → 0 ≡ 0 * size
no_pages size = omega arith

one_page_more : (n size : ℕ) → n * size + size ≡ suc n * size
one_page_more n size = omega arith

one_page_less : (n size : ℕ) → size + n * size ≡ suc n * size
one_page_less n size = omega arith

plus_none : (b : ℕ) → b ≡ 0 + b
plus_none b = omega arith

more_suc : (a b : ℕ) → suc (a + b) ≡ suc a + b
more_suc a b = omega arith

module _ (like : String → String → Bool) where
  take-none : (n : ℕ) → take {A = PlatformTask} n [] ≡ []
  take-none zero = refl
  take-none (suc n) = refl

  take-drop :
      (a b : ℕ) (ts : List PlatformTask) → take a ts ++ take b (drop like a ts) ≡ take (a + b) ts
  take-drop zero b ts = ap (λ n. take n ts) (omega arith)
  take-drop (suc a) b [] = take-none b ∙ sym (take-none (suc a + b))
  take-drop (suc a) b (t ∷ ts) =
      ap (λ rest. t ∷ rest) (take-drop a b ts) ∙ ap (λ n. take n (t ∷ ts)) (more_suc a b)

  scan_all-append :
      (ts us : List PlatformTask) → scan_all like (ts ++ us) ≡ scan_all like ts ++ scan_all like us
  scan_all-append [] us = refl
  scan_all-append (t ∷ ts) us = ap (λ rest. scan t ∷ rest) (scan_all-append ts us)

  length-scan_all : (ts : List PlatformTask) → length (scan_all like ts) ≡ length ts
  length-scan_all [] = refl
  length-scan_all (t ∷ ts) = ap suc (length-scan_all ts)

  take-all : (n : ℕ) (ts : List PlatformTask) → length ts ≤ n → take n ts ≡ ts
  take-all n [] h = take-none n
  take-all zero (t ∷ ts) h = absurd (omega (arith, h))
  take-all (suc n) (t ∷ ts) h = ap (λ rest. t ∷ rest) (take-all n ts (omega (arith, h)))

  drop-none : (n : ℕ) → drop like n [] ≡ []
  drop-none zero = refl
  drop-none (suc n) = refl

  drop-drop :
      (a b : ℕ) (ts : List PlatformTask) → drop like b (drop like a ts) ≡ drop like (a + b) ts
  drop-drop zero b ts = ap (λ n. drop like n ts) (plus_none b)
  drop-drop (suc a) b [] = drop-none b ∙ sym (drop-none (suc a + b))
  drop-drop (suc a) b (t ∷ ts) = drop-drop a b ts ∙ ap (λ n. drop like n (t ∷ ts)) (more_suc a b)

  page_of_ok :
      (i size : ℕ) (rows page : List PlatformTask)
      → page_of like (suc i) size rows ≡ ok page
      → scan_all like (take size (drop like (i * size) rows)) ≡ page
  unfolding page_of
  page_of_ok i size rows page h =
      let present : (suc i =? 0) ≡ false = ground arith in
      let back : i ≡ suc i - 1 = omega arith in
      let at : ℕ → List PlatformTask = λ j. scan_all like (take size (drop like (j * size) rows)) in
      ap at back ∙ ok_same (at (suc i - 1)) page (rw present at h)

  module _ (by_newest : World Table → List PlatformTask → List PlatformTask) where
    -- `v` is the world in which the page is read, behind the count.
    list_by_filter_ok :
        (env : Env) (f : Filter) (page size : ℕ) (w : World Table) {tasks : List PlatformTask}
        {total : ℕ}
        → (list_by_filter like by_newest f page size env w).0 ≡ ok (tasks, total)
        → (total ≡ length (select (matches like env f) w.tables))
          × ((v : World Table) × (v.tables ≡ w.tables)
              × (page_of like page size (by_newest v (select (matches like env f) v.tables))
                  ≡ ok tasks))
    unfolding list_by_filter pure count list_page
    list_by_filter_ok env f page size w {tasks} {total} h =
        let rest : ℕ → Sql Table (List PlatformTask × ℕ) =
          λ total. list_page like by_newest f page size >>= λ tasks. pure (tasks, total) in
        let (n, counted, next, same) = bind_ok (count like f) rest env w h in
        let v = (count like f env w).1 in
        let (ts, got, last, _) =
          bind_ok (list_page like by_newest f page size) (λ tasks. pure (tasks, n)) env v next in
        let numbers : Env → World Table → Result ℕ =
          λ env w. ok (length (select (matches like env f) w.tables)) in
        let rows : Env → World Table → Result (List PlatformTask) =
          λ env w. page_of like page size (by_newest w (select (matches like env f) w.tables)) in
        let answer = ok_same (ts, n) (tasks, total) last in
        (
          ap (λ a. a.1) (sym answer)
              ∙ sym (
                  ok_same (length (select (matches like env f) w.tables)) n
                    (query_ok numbers env w counted)),
          (v, query_same numbers env w, query_ok rows env v got ∙ ap (λ a. ok a.0) answer),
        )

-- Calls for one page after the other, each with the world in which it is made and its answer.
abbrev pub Calls : Type 0
Calls = List (World Table × List PlatformTask)

-- The pages that the calls answer, one behind the other.
abbrev pub joined : Calls → List PlatformTask
joined [] = []
joined ((w, page) ∷ calls) = page ++ joined calls

-- `rows` is the list in which the server gives the tasks of the filter, whenever it is asked while
-- the tasks are these.
module _ (like : String → String → Bool)
    (by_newest : World Table → List PlatformTask → List PlatformTask) (env : Env) (f : Filter)
    (size total : ℕ) (tables : Table) (rows : List PlatformTask)
    (steady : (v : World Table)
      → v.tables ≡ tables
      → by_newest v (select (matches like env f) tables) ≡ rows)
    (all_rows : length rows ≡ length (select (matches like env f) tables)) where
  -- The calls ask for the pages behind the `i`th, while the tasks stay as they are.
  abbrev pub AreRead : ℕ → Calls → Type 0
  AreRead i [] = Unit
  AreRead i ((w, page) ∷ calls) =
      (w.tables ≡ tables)
      × ((list_by_filter like by_newest f (suc i) size env w).0 ≡ ok (page, total))
      × AreRead (suc i) calls

  joined-take :
      (i : ℕ) (calls : Calls)
      → AreRead i calls
      → joined calls ≡ scan_all like (take (length calls * size) (drop like (i * size) rows))
  joined-take i [] read =
      ap (λ m. scan_all like (take m (drop like (i * size) rows))) (no_pages size)
  joined-take i ((w, page) ∷ calls) (still, now, later) =
      let behind = drop like (i * size) rows in
      let others = take (length calls * size) (drop like (suc i * size) rows) in
      let (v, same, given) = (list_by_filter_ok like by_newest env f (suc i) size w now).1 in
      let listed : by_newest v (select (matches like env f) v.tables) ≡ rows =
        ap (λ t. by_newest v (select (matches like env f) t)) (same ∙ still)
        ∙ steady v (same ∙ still) in
      let answer : page_of like (suc i) size rows ≡ ok page =
        ap (page_of like (suc i) size) (sym listed) ∙ given in
      ap (λ x. x ++ joined calls) (sym (page_of_ok like i size rows page answer))
      ∙ ap (λ x. scan_all like (take size behind) ++ x) (joined-take (suc i) calls later)
      ∙ sym (scan_all-append like (take size behind) others)
      ∙ ap (λ d. scan_all like (take size behind ++ take (length calls * size) d))
          (sym (
            drop-drop like (i * size) size rows
            ∙ ap (λ m. drop like m rows) (one_page_more i size)))
      ∙ ap (scan_all like) (take-drop like size (length calls * size) behind)
      ∙ ap (λ m. scan_all like (take m behind)) (one_page_less (length calls) size)

  -- Where the tasks stay as they are while the first pages of some size are read, one call for each,
  -- the server gives the tasks that match the filter in one and the same order whenever it is asked
  -- meanwhile, as many as match, and the total that the calls report is not above the number of
  -- calls times the size, the pages together are what the server gives, in this order, and the total
  -- is their number.
  pub list_by_filter-joined :
      (first : World Table × List PlatformTask) (calls : Calls)
      → AreRead 0 (first ∷ calls)
      → total ≤ length (first ∷ calls) * size
      → (joined (first ∷ calls) ≡ scan_all like rows) × (length (joined (first ∷ calls)) ≡ total)
  list_by_filter-joined (w, page) calls read enough =
      let (still, now, later) = read in
      let sum : total ≡ length rows =
        subst (λ t. total ≡ length (select (matches like env f) t)) still
          (list_by_filter_ok like by_newest env f 1 size w now).0
        ∙ sym all_rows in
      let all_calls = (w, page) ∷ calls in
      let whole : joined all_calls ≡ scan_all like rows =
        joined-take 0 all_calls read
        ∙ ap (λ m. scan_all like (take (length all_calls * size) (drop like m rows)))
            (sym (no_pages size))
        ∙ ap (scan_all like)
            (take-all like (length all_calls * size) rows (omega (arith, enough, sum))) in
      (whole, ap length whole ∙ length-scan_all like rows ∙ sym sum)
