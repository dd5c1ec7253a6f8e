-- ===== src/Storage/Reply.antt =====
-- Errors, and what ExecContext and QueryRowContext report of a statement. The database, the
-- network and the locks of other statements are the environment's: a `Turn` holds what they
-- chose for one call.
use distq_go.Common.{ℕ, String, Bool, true, false, Option, none, some, ◌≡◌, refl, ◌⊎◌, inl, inr}
use distq_go.Storage.Row.{Db}

-- `driver` is an error of the database driver; `wrapped` is fmt.Errorf("…: %w", err).
pub data Error : Type 0 where
  lease_lost : Error
  driver : String → Error
  wrapped : (prefix : String) → Error → Error

pub data Result {ℓ} (A : Type ℓ) : Type ℓ where
  ok : A → Result A
  err : Error → Result A

-- `answered`: the statement ran and its reply came back. `refused`: it did not run. `cut`: it
-- ran, and its reply was lost. `uncounted`: it ran, and RowsAffected failed.
pub data Link : Type 0 where
  answered : Link
  refused cut uncounted : String → Link

-- Whether the statement took effect.
abbrev pub runs : Link → Bool
runs (refused e) = false
runs _ = true

-- What the environment chose for one call: CURRENT_TIMESTAMP, the fate of the connection, the
-- rows that other statements have locked, and the order in which rows are found.
pub record Turn : Type 0 where
  pub now : ℕ
  pub link : Link
  pub locked : String → Bool
  pub order : ℕ

-- QueryRowContext(…).Scan(…): the row that the statement returns, if any, goes to `k`.
abbrev pub scan {ℓ κ} :
    {A : Type ℓ} {B : Type κ}
    → Link
    → String
    → Db
    → Db
    → Option A
    → (Option A → Result B)
    → Db × Result B
scan answered prefix before after row k = (after, k row)
scan (uncounted e) prefix before after row k = (after, k row)
scan (refused e) prefix before after row k = (before, err (wrapped prefix (driver e)))
scan (cut e) prefix before after row k = (after, err (wrapped prefix (driver e)))

-- ExecContext and then RowsAffected: the number of rows goes to `k`.
abbrev pub exec_counted {ℓ} :
    {B : Type ℓ} → Link → String → Db → Db → ℕ → (ℕ → Result B) → Db × Result B
exec_counted answered prefix before after n k = (after, k n)
exec_counted (uncounted e) prefix before after n k =
    (after, err (wrapped "rows affected" (driver e)))
exec_counted (refused e) prefix before after n k = (before, err (wrapped prefix (driver e)))
exec_counted (cut e) prefix before after n k = (after, err (wrapped prefix (driver e)))

-- ExecContext alone.
abbrev pub exec {ℓ} : {S : Type ℓ} → Link → String → S → S → S × Result (Unit {0})
exec answered prefix before after = (after, ok tt)
exec (uncounted e) prefix before after = (after, ok tt)
exec (refused e) prefix before after = (before, err (wrapped prefix (driver e)))
exec (cut e) prefix before after = (after, err (wrapped prefix (driver e)))

-- A property of the database that holds before and after a statement holds whatever became of it.
module _ {ℓ} (P : Db → Type ℓ) {before after : Db} (unchanged : P before) (changed : P after) where
  pub scan_cases {κ μ} :
      {A : Type κ} {B : Type μ} (l : Link) (prefix : String) (row : Option A)
      (k : Option A → Result B)
      → P (scan l prefix before after row k).0
  scan_cases answered prefix row k = changed
  scan_cases (uncounted e) prefix row k = changed
  scan_cases (refused e) prefix row k = unchanged
  scan_cases (cut e) prefix row k = changed

  pub exec_counted_cases {κ} :
      {B : Type κ} (l : Link) (prefix : String) (n : ℕ) (k : ℕ → Result B)
      → P (exec_counted l prefix before after n k).0
  exec_counted_cases answered prefix n k = changed
  exec_counted_cases (uncounted e) prefix n k = changed
  exec_counted_cases (refused e) prefix n k = unchanged
  exec_counted_cases (cut e) prefix n k = changed

  pub exec_cases : (l : Link) (prefix : String) → P (exec l prefix before after).0
  exec_cases answered prefix = changed
  exec_cases (uncounted e) prefix = changed
  exec_cases (refused e) prefix = unchanged
  exec_cases (cut e) prefix = changed

-- An error, nothing found, or something found.
pub claim_cases {ℓ} :
    {A : Type ℓ} (r : Result (Option A))
    → ((e : Error) × (r ≡ err e)) ⊎ ((r ≡ ok none) ⊎ ((a : A) × (r ≡ ok (some a))))
claim_cases (err e) = inl (e, refl)
claim_cases (ok none) = inr (inl refl)
claim_cases (ok (some a)) = inr (inr (a, refl))
