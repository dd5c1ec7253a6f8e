-- ===== src/Commands/Producer.antt =====
-- cmd/producer/main.go: what the producer sends, and what it prints of the replies. Dialling and
-- the pauses are left out. The reading of a number (strconv.Atoi), the text of a payload
-- (fmt.Sprintf) and the call of Enqueue are parameters.
pub mod Stored
use distq_go.Common.{ℕ, zero, suc, String, Option, none, some, List, [], ◌∷◌, ◌==◌, if◌then◌else◌}
use distq_go.Common.Int.{ℤ, pos, negsuc}
use distq_go.Proto.{Job, EnqueueRequest, EnqueueResponse}

-- The kind of the jobs and how many: `none` is the exit for a count that is not a positive number.
pub data Settings : Type 0 where
  bad_count : Settings
  injects : (kind : String) (count : ℕ) → Settings

abbrev counted : String → Option ℤ → Settings
counted kind (some (pos (suc n))) = injects kind (suc n)
counted kind (some (pos zero)) = bad_count
counted kind (some (negsuc n)) = bad_count
counted kind none = bad_count

-- The arguments of the command, without its name.
abbrev pub settings : (atoi : String → Option ℤ) → List String → Settings
settings atoi [] = injects "normal" 3
settings atoi (kind ∷ []) = injects kind 3
settings atoi (kind ∷ count ∷ others) = counted kind (atoi count)

abbrev pub demo_job : String → List ℕ → Job
demo_job kind payload = record {
  id = "";
  kind = kind;
  payload = payload;
  status = "";
  error = "";
  retry_count = 0;
  max_retries = pos 0;
}

abbrev pub request : String → List ℕ → EnqueueRequest
request kind payload = record { job = some (demo_job kind payload) }

-- What is printed for a job.
pub data Told : Type 0 where
  network_error : Told
  rejected : (error : String) → Told
  enqueued : (id : String) → Told

-- `none` is an error of the call.
abbrev pub tell : Option EnqueueResponse → Told
tell none = network_error
tell (some r) = if r.error == "" then enqueued r.job_id else rejected r.error

-- The loop from the job `i` on, for `n` jobs: a job that is not enqueued does not stop it.
unfoldable pub inject :
    {S : Type 0}
    → (payload : String → ℕ → List ℕ) → (rpc : ℕ → EnqueueRequest → S → S × Option EnqueueResponse)
    → String
    → (i n : ℕ) → S
    → S × List (ℕ × Told)
inject payload rpc kind i zero s = (s, [])
inject payload rpc kind i (suc n) s =
    let (s', reply) = rpc i (request kind (payload kind i)) s in
    let (s'', told) = inject payload rpc kind (suc i) n s' in (s'', (i, tell reply) ∷ told)
