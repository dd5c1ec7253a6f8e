-- ===== src/Storage/Schedule.antt =====
-- NextVisible against DequeueJob: how long a dispatcher sleeps, and what it finds when it wakes.
use distq_go.Common.{
  ℕ, ◌+◌, ◌≤◌, ◌<◌, ◌≡◌, ◌≢◌, refl, subst, inl, inr, String, Bool, true, false, ◌&&◌, Option, none,
  some, List, [], ◌∷◌, eq_iff, eq_refl, arith, Option-cases, Bool-cases,
}
use distq_go.Common.Int.{ℤ, pos, pos_part}
use distq_go.Proto.{Job}
use distq_go.Storage.Row.{Row, Db, is_pending}
use distq_go.Storage.Statement.{at_or_before, count_where, find_job}
use distq_go.Storage.Reply.{Turn, answered, ok}
use distq_go.Storage.Jobs.{next_visible, dequeue_job, oldest_pending}
use distq_go.Storage.Rows.{Unique, count_where-pos}
use distq_go.Storage.Claims.{IsClaimable, dequeue_job-finds, dequeue_job-finds_none}

-- Every pending row has a time at which it is due.
abbrev pub HasDue : Row → Type 0
HasDue r = is_pending r.state ≡ true → r.next_run_at ≢ none

-- The oldest due time of a table is at most `due`.
abbrev AtMost : Option ℕ → ℕ → Type 0
AtMost none due = ⊥
AtMost (some first) due = first ≤ due

-- No pending row is due before the oldest.
oldest_pending-AtMost :
    (rows : List Row) (k : String) {r : Row} {due : ℕ}
    → find_job k rows ≡ some r
    → is_pending r.state ≡ true
    → r.next_run_at ≡ some due
    → AtMost (oldest_pending rows) due
unfolding oldest_pending find_job
oldest_pending-AtMost [] k e p d = absurd (ground arith)
oldest_pending-AtMost (x ∷ rs) k {r} {due} e p d =
    ground (arith, oldest_pending-AtMost rs k {r = r} {due = due})

-- A row that is due first.
abbrev IsFirst : List Row → ℕ → Row → Type 0
IsFirst rows first r =
    (find_job r.id rows ≡ some r) × (is_pending r.state ≡ true) × (r.next_run_at ≡ some first)

later-IsFirst :
    (x : Row) (rs : List Row) (first : ℕ) (r : Row)
    → Unique (x ∷ rs)
    → IsFirst rs first r
    → IsFirst (x ∷ rs) first r
unfolding find_job
later-IsFirst x rs first r u f = ground (arith, eq_iff x.id r.id)

-- The oldest due time is a pending row's.
oldest_pending-IsFirst :
    (rows : List Row) {first : ℕ}
    → Unique rows
    → oldest_pending rows ≡ some first
    → (r : Row) × IsFirst rows first r
unfolding oldest_pending find_job
oldest_pending-IsFirst [] u o = absurd (ground arith)
oldest_pending-IsFirst (x ∷ rs) {first} u o = elim (Option-cases (oldest_pending rs)) [
  | inl none_left ↦ (x, ground (arith, eq_refl x.id))
  | inr (other, e) ↦
      let (r, f) = oldest_pending-IsFirst rs {first = other} u.1 e in
      elim (Bool-cases (is_pending x.state && at_or_before x.next_run_at other)) [
        | inl mine ↦ (x, ground (arith, eq_refl x.id, e))
        | inr its ↦
            let same : other ≡ first = ground (arith, e) in
            (r, later-IsFirst x rs first r u (subst (λ n. IsFirst rs n r) same f))
      ]
]

-- A row that a test counts stands in the table.
count_where-row :
    (p : Row → Bool) (rows : List Row)
    → Unique rows
    → 0 < count_where p rows
    → (r : Row) × (find_job r.id rows ≡ some r) × (p r ≡ true)
unfolding count_where find_job
count_where-row p [] u h = absurd (omega arith)
count_where-row p (x ∷ rs) u h = elim (Bool-cases (p x)) [
  | inl here ↦ (x, ground (arith, eq_refl x.id), here)
  | inr miss ↦
      let (r, e, q) = count_where-row p rs u.1 (ground arith) in
      (r, ground (arith, eq_iff x.id r.id), q)
]

module _ (t t' : Turn) (db : Db) (term : ℕ) (worker : String) (lease : ℕ) (u : Unique db.jobs)
    (due : (k : String) (r : Row) → find_job k db.jobs ≡ some r → HasDue r) (a : t.link ≡ answered)
    (a' : t'.link ≡ answered) where
  -- The row that is due first, where something is pending.
  IsFirst-row :
      {wait : ℤ}
      → (next_visible t db).1 ≡ ok (wait, true)
      → (first : ℕ) × (r : Row) × IsFirst db.jobs first r × (oldest_pending db.jobs ≡ some first)
  unfolding next_visible
  IsFirst-row {wait} h =
      let some_row = count_where-row (λ x. is_pending x.state) db.jobs u (ground arith) in
      elim (Option-cases (oldest_pending db.jobs)) [
        | inl e ↦ absurd (undated some_row.0 some_row.1 some_row.2 (some_row.0).next_run_at refl e)
        | inr (first, e) ↦
            let (r, f) = oldest_pending-IsFirst db.jobs {first = first} u e in (first, r, f, e)
      ]
    where
      undated :
          (x : Row)
          → find_job x.id db.jobs ≡ some x
          → is_pending x.state ≡ true
          → (d : Option ℕ) → x.next_run_at ≡ d
          → oldest_pending db.jobs ≡ none
          → ⊥
      undated x found p none q e = due x.id x found p q
      undated x found p (some d) q e =
          let low = oldest_pending-AtMost db.jobs x.id {r = x} {due = d} found p q in
          subst (λ o. AtMost o d) e low

  -- If NextVisible says that nothing is pending, no claim at any time that is answered finds a job.
  pub nothing_pending :
      {wait : ℤ}
      → (next_visible t db).1 ≡ ok (wait, false)
      → dequeue_job t' term worker lease db ≡ (db, ok none)
  unfolding next_visible
  nothing_pending {wait} h = dequeue_job-finds_none t' term worker lease db u a' λ k r e c.
      let counted = count_where-pos (λ x. is_pending x.state) k db.jobs {r = r} e (ground arith) in
      ground (arith, counted)

  -- If NextVisible says to wait n, no claim that is answered before the wait is over finds a job,
  -- and none changes anything. (For a table whose ids are distinct and whose pending rows all
  -- have a due time, and a NextVisible that is answered.)
  pub too_early :
      {n : ℕ}
      → (next_visible t db).1 ≡ ok (pos n, true)
      → t'.now < t.now + n
      → dequeue_job t' term worker lease db ≡ (db, ok none)
  unfolding next_visible
  too_early {n} h lt =
      let (first, r, f, o) = IsFirst-row h in
      dequeue_job-finds_none t' term worker lease db u a'
        λ k x e c. before k x e c (x.next_run_at) refl
    where
      before :
          (k : String) (x : Row)
          → find_job k db.jobs ≡ some x
          → IsClaimable t' x
          → (d : Option ℕ) → x.next_run_at ≡ d
          → ⊥
      before k x e c none q = ground arith
      before k x e c (some d) q =
          let low = oldest_pending-AtMost db.jobs k {r = x} {due = d} e (ground arith) q in
          ground (arith, low, h)

  -- If NextVisible says that something is pending, a claim that is answered and meets no locked
  -- row returns a job once the wait is over, which is at once if the wait is zero or negative.
  -- (For a table whose ids are distinct and whose pending rows all have a due time, and a
  -- NextVisible that is answered.)
  pub in_time :
      {wait : ℤ}
      → (next_visible t db).1 ≡ ok (wait, true)
      → t.now + pos_part wait ≤ t'.now
      → ((id : String) → t'.locked id ≡ false)
      → (j : Job) × ((dequeue_job t' term worker lease db).1 ≡ ok (some j))
  unfolding next_visible
  in_time {wait} h le free =
      let (first, r, f, o) = IsFirst-row h in
      let due_now : first ≤ t'.now = ground (arith, o, h) in
      dequeue_job-finds t' term worker lease db r.id {r = r} u a' f.0 (ground arith, free r.id)
