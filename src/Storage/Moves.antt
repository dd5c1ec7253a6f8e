-- ===== src/Storage/Moves.antt =====
-- What one call can do to one row of `jobs`, and that every call does one of these
-- (Moves/Calls).
pub mod Calls
use distq_go.Common.{ℕ, ◌%◌, ◌≡◌, String, true, false, ◌&&◌, not, some, List, arith, length}
use distq_go.Storage.Row.{Row, Db}
use distq_go.Storage.Statement.{find_job}
use distq_go.Storage.Reply.{Turn}
use distq_go.Storage.Jobs.{
  pick, candidates, is_visible, claim_row, is_owned_by, complete_row, fail_row, heartbeat_row,
  is_abandoned, reap_row,
}
use distq_go.Storage.Step.{Call, dequeues, completes, fails, heartbeats, reaps}
use distq_go.Storage.Rows.{Unique, get_elem?-select}

-- `r` is the row before the call and `r'` the row after it.
pub data Move (t : Turn) (c : Call) (r r' : Row) : Type 0 where
  stay : r' ≡ r → Move t c r r'
  claimed :
      (term : ℕ) (worker : String) (lease : ℕ)
      → c ≡ dequeues term worker lease
      → is_visible t.now r ≡ true
      → t.locked r.id ≡ false
      → r' ≡ claim_row t.now term worker lease r
      → Move t c r r'
  completed :
      (worker : String)
      → c ≡ completes r.id worker
      → is_owned_by r.id worker r ≡ true
      → r' ≡ complete_row t.now r
      → Move t c r r'
  failed :
      (worker message : String) (base : ℕ)
      → c ≡ fails r.id worker message base
      → is_owned_by r.id worker r ≡ true
      → r' ≡ fail_row t.now message base r
      → Move t c r r'
  renewed :
      (worker : String) (lease : ℕ)
      → c ≡ heartbeats r.id worker lease
      → is_owned_by r.id worker r ≡ true
      → r' ≡ heartbeat_row t.now lease r
      → Move t c r r'
  reaped :
      (term : ℕ)
      → c ≡ reaps term
      → is_abandoned t.now term r ≡ true
      → r' ≡ reap_row t.now r
      → Move t c r r'

-- The row under `k` after the call, and the move that it made.
abbrev pub Moved : Turn → Call → String → Row → Db → Type 0
Moved t c k r db = (r' : Row) × (find_job k db.jobs ≡ some r') × Move t c r r'

-- The row that a claim picks is visible, unlocked, and the one under its id.
pub pick-visible :
    (t : Turn) (rows : List Row) {r : Row}
    → Unique rows
    → pick t rows ≡ some r
    → (is_visible t.now r ≡ true) × (t.locked r.id ≡ false) × (find_job r.id rows ≡ some r)
unfolding pick
pick-visible t rows {r} u e =
    let found =
      get_elem?-select (λ x. is_visible t.now x && not (t.locked x.id)) rows
        (t.order % length (candidates t rows)) {r = r} u e in
    (ground arith, ground arith, found.1)
