-- ===== src/Storage/Rows.antt =====
-- Looking a row up in a table that an UPDATE has changed, and the primary key.
use distq_go.Common.{
  ℕ, zero, suc, ◌<◌, ◌≡◌, ◌≢◌, refl, inl, inr, String, Bool, true, false, Option, none, some, List,
  [], ◌∷◌, eq_iff, if◌then◌else◌, arith, select, get_elem?, length, Bool-cases,
}
use distq_go.Storage.Row.{Row}
use distq_go.Storage.Statement.{update_where, count_where, find_where, find_job}

-- What an UPDATE does to one row.
abbrev pub rewrite : (Row → Bool) → (Row → Row) → Row → Row
rewrite p f r = if p r then f r else r

abbrev pub map_row : (Row → Row) → Option Row → Option Row
map_row f none = none
map_row f (some r) = some (f r)

-- The ids of a table are distinct.
abbrev pub Unique : List Row → Type 0
Unique [] = Unit {0}
Unique (r ∷ rs) = (find_job r.id rs ≡ none) × Unique rs

module _ (p : Row → Bool) (f : Row → Row) (keeps : (r : Row) → (f r).id ≡ r.id) where
  pub find_job-update_where :
      (k : String) (rows : List Row)
      → find_job k (update_where p f rows) ≡ map_row (rewrite p f) (find_job k rows)
  unfolding find_job update_where
  find_job-update_where k [] = refl
  find_job-update_where k (r ∷ rs) = ground (arith, keeps r, find_job-update_where k rs)

  pub update_where-Unique : (rows : List Row) → Unique rows → Unique (update_where p f rows)
  unfolding find_job update_where
  update_where-Unique [] u = tt
  update_where-Unique (r ∷ rs) u = (
    ground (arith, keeps r, find_job-update_where r.id rs, find_job-update_where (f r).id rs),
    update_where-Unique rs u.1,
  )

pub find_job-id : (k : String) (rows : List Row) {r : Row} → find_job k rows ≡ some r → r.id ≡ k
unfolding find_job
find_job-id k [] e = ground arith
find_job-id k (x ∷ rs) {r} e = ground (arith, eq_iff x.id k, find_job-id k rs {r = r})

found_later :
    (x r : Row) (rs : List Row)
    → Unique (x ∷ rs)
    → find_job r.id rs ≡ some r
    → find_job r.id (x ∷ rs) ≡ some r
unfolding find_job
found_later x r rs u e = ground (arith, eq_iff x.id r.id)

-- A row that a test selects passes it, and stands in the table under its own id.
pub get_elem?-select :
    (p : Row → Bool) (rows : List Row) (i : ℕ) {r : Row}
    → Unique rows
    → get_elem? (select p rows) i ≡ some r
    → (p r ≡ true) × (find_job r.id rows ≡ some r)
unfolding find_job
get_elem?-select p [] i u e = ground arith
get_elem?-select p (x ∷ rs) zero {r} u e = elim (Bool-cases (p x)) [
  | inl h ↦ ground (arith, eq_iff x.id r.id)
  | inr h ↦
      let later = get_elem?-select p rs zero {r = r} u.1 (ground arith) in
      (later.0, found_later x r rs u later.1)
]
get_elem?-select p (x ∷ rs) (suc i) {r} u e = elim (Bool-cases (p x)) [
  | inl h ↦
      let later = get_elem?-select p rs i {r = r} u.1 (ground arith) in
      (later.0, found_later x r rs u later.1)
  | inr h ↦
      let later = get_elem?-select p rs (suc i) {r = r} u.1 (ground arith) in
      (later.0, found_later x r rs u later.1)
]

-- A row that a test selects is among the rows counted.
pub count_where-pos :
    (p : Row → Bool) (k : String) (rows : List Row) {r : Row}
    → find_job k rows ≡ some r
    → p r ≡ true
    → 0 < count_where p rows
unfolding find_job count_where
count_where-pos p k [] e h = ground arith
count_where-pos p k (x ∷ rs) {r} e h = ground (arith, count_where-pos p k rs {r = r})

-- Where a test asks for one id and the row under it fails, the test matches nothing.
module _ (p : Row → Bool) (k : String) (asks : (r : Row) → p r ≡ true → r.id ≡ k) where
  pub count_where-absent :
      (rows : List Row) → Unique rows → find_job k rows ≡ none → count_where p rows ≡ 0
  unfolding find_job count_where
  count_where-absent [] u e = refl
  count_where-absent (x ∷ rs) u e = ground (arith, asks x, eq_iff x.id k, count_where-absent rs u.1)

  pub update_where-absent :
      (f : Row → Row) (rows : List Row) → find_job k rows ≡ none → update_where p f rows ≡ rows
  unfolding find_job update_where
  update_where-absent f [] e = refl
  update_where-absent f (x ∷ rs) e = ground (arith, asks x, eq_iff x.id k, update_where-absent f rs)

  pub count_where-refused :
      (rows : List Row) {r : Row}
      → Unique rows
      → find_job k rows ≡ some r
      → p r ≡ false
      → count_where p rows ≡ 0
  unfolding find_job count_where
  count_where-refused [] u e h = refl
  count_where-refused (x ∷ rs) {r} u e h =
      ground (
        arith,
        asks x,
        eq_iff x.id k,
        count_where-refused rs {r = r} u.1,
        count_where-absent rs u.1,
      )

  pub update_where-refused :
      (f : Row → Row) (rows : List Row) {r : Row}
      → Unique rows
      → find_job k rows ≡ some r
      → p r ≡ false
      → update_where p f rows ≡ rows
  unfolding find_job update_where
  update_where-refused f [] u e h = refl
  update_where-refused f (x ∷ rs) {r} u e h = ground (
    arith,
    asks x,
    eq_iff x.id k,
    update_where-refused f rs {r = r} u.1,
    update_where-absent f rs,
  )

  pub find_where-find_job :
      (rows : List Row) {r : Row}
      → find_job k rows ≡ some r
      → p r ≡ true
      → find_where p rows ≡ some r
  unfolding find_job find_where
  find_where-find_job [] e h = ground arith
  find_where-find_job (x ∷ rs) {r} e h =
      ground (arith, asks x, eq_iff x.id k, find_where-find_job rs {r = r})

  pub find_where-refused : (rows : List Row) → count_where p rows ≡ 0 → find_where p rows ≡ none
  unfolding count_where find_where
  find_where-refused [] e = refl
  find_where-refused (x ∷ rs) e = ground (arith, find_where-refused rs)

  -- The rows under other ids are left alone.
  pub find_job-update_where_ne :
      (f : Row → Row) (j : String) (rows : List Row)
      → ((r : Row) → (f r).id ≡ r.id)
      → j ≢ k
      → find_job j (update_where p f rows) ≡ find_job j rows
  unfolding find_job update_where
  find_job-update_where_ne f j [] keeps ne = refl
  find_job-update_where_ne f j (x ∷ rs) keeps ne =
      ground (arith, asks x, keeps x, eq_iff x.id j, find_job-update_where_ne f j rs keeps ne)

-- A row that passes a test is among those selected.
pub length-select-pos :
    (p : Row → Bool) (k : String) (rows : List Row) {r : Row}
    → find_job k rows ≡ some r
    → p r ≡ true
    → 0 < length (select p rows)
unfolding find_job
length-select-pos p k [] e h = ground arith
length-select-pos p k (x ∷ rs) {r} e h = elim (Bool-cases (p x)) [
  | inl here ↦ rw here (omega arith)
  | inr miss ↦ rw miss (length-select-pos p k rs {r = r} (ground arith) h)
]
