-- ===== src/Storage/Statement.antt =====
-- The parts of SQL that the statements of internal/storage/postgres.go use: a comparison with a
-- NULL, which is never true, and an UPDATE with its WHERE. A statement is atomic: PostgreSQL
-- runs each under the locks of the rows that it changes.
use distq_go.Common.{
  ℕ, suc, String, Bool, false, Option, none, some, List, [], ◌∷◌, ◌==◌, if◌then◌else◌, leb, ltb,
}
use distq_go.Storage.Row.{Row}

-- t <= now and t < now, for a t that may be NULL.
abbrev pub at_or_before : Option ℕ → ℕ → Bool
at_or_before none now = false
at_or_before (some t) now = leb t now

abbrev pub is_before : Option ℕ → ℕ → Bool
is_before none now = false
is_before (some t) now = ltb t now

-- UPDATE jobs SET f WHERE p
unfoldable pub update_where : (Row → Bool) → (Row → Row) → List Row → List Row
update_where p f [] = []
update_where p f (r ∷ rs) = (if p r then f r else r) ∷ update_where p f rs

-- How many rows a WHERE matches.
unfoldable pub count_where : (Row → Bool) → List Row → ℕ
count_where p [] = 0
count_where p (r ∷ rs) = (if p r then suc (count_where p rs) else count_where p rs)

-- The first row that a WHERE matches.
unfoldable pub find_where : (Row → Bool) → List Row → Option Row
find_where p [] = none
find_where p (r ∷ rs) = if p r then some r else find_where p rs

-- The row under a primary key.
unfoldable pub find_job : String → List Row → Option Row
find_job id [] = none
find_job id (r ∷ rs) = if r.id == id then some r else find_job id rs
