-- ===== src/Commands/Probe.antt =====
-- tools/fenceprobe/main.go: what the probe sends, and the verdict that it prints. What its stream
-- receives is the environment's. A text's length counts its bytes, as Go's len does.
use Prim.Native.Char.{code}
use mathlib.Core.Option.{some-injective}
use distq_go.Common.{
  ℕ, ◌+◌, ◌≤◌, ◌≡◌, refl, inl, inr, ◌⊎◌, String, Bool, true, Option, none, some, List, [], ◌∷◌,
  ◌++◌, if◌then◌else◌, ltb, arith, eq_iff, All, ◌∙◌, sym, ap, Option-cases, Bool-cases, ◌==◌,
}
use distq_go.Proto.{
  WorkerMessage, hello, completed, Outcome, accepted, refused, JobResult, ServerMessage, assigned,
  result, lost,
}
use distq_go.Storage.Row.{Row, processing, is_processing}
use distq_go.Storage.Statement.{find_job}
use distq_go.Storage.Reply.{answered, lease_lost, Error}
use distq_go.Storage.Rows.{Unique}
use distq_go.Storage.Postgres.{World}
use distq_go.Storage.Reports.{IsNotOwner}
use distq_go.Server.Answer.{answer, error_text, reason_text, reply_to}
use distq_go.Server.Outcomes.{postgres_queue, answer_refused, answer_owner}

-- How many bytes UTF-8 takes for a code point.
abbrev utf8_size : ℕ → ℕ
utf8_size c = if ltb c 128 then 1 else if ltb c 2048 then 2 else if ltb c 65536 then 3 else 4

abbrev pub byte_length : String → ℕ
byte_length String.[] = 0
byte_length (String.◌∷◌ c s) = utf8_size (code c) + byte_length s

abbrev pub sends : (job worker : String) → List WorkerMessage
sends job worker = hello worker ∷ completed job ∷ []

pub data Receipt : Type 0 where
  closed failed : Receipt
  gets : ServerMessage → Receipt

-- `panicked` is the slice of an id that has fewer than 8 bytes; `waiting` is a probe that still
-- waits.
pub data Verdict : Type 0 where
  no_answer rpc_error : Verdict
  rejected : (reason : String) → Verdict
  let_through panicked waiting : Verdict

-- printVerdict
abbrev pub verdict_on : JobResult → Verdict
verdict_on r = elim r.outcome [ refused ↦ rejected r.error | _ ↦ let_through ]

unfoldable pub probe : List Receipt → Verdict
probe [] = waiting
probe (closed ∷ rest) = no_answer
probe (failed ∷ rest) = rpc_error
probe (gets (assigned a) ∷ rest) =
    let later = probe rest in if ltb (byte_length a.job.id) 8 then panicked else later
probe (gets (lost id) ∷ rest) = probe rest
probe (gets (result r) ∷ rest) = verdict_on r

-- Pushed work that the probe can skip: a job whose id has 8 bytes, or the loss of one.
abbrev pub IsNoise : Receipt → Type 0
IsNoise (gets (assigned a)) = 8 ≤ byte_length a.job.id
IsNoise (gets (lost id)) = Unit {0}
IsNoise _ = ⊥

probe-noise : (noise rest : List Receipt) → All IsNoise noise → probe (noise ++ rest) ≡ probe rest
unfolding probe
probe-noise [] rest h = refl
probe-noise (gets (assigned a) ∷ noise) rest h = ground (arith, probe-noise noise rest h.1)
probe-noise (gets (lost id) ∷ noise) rest h = probe-noise noise rest h.1
probe-noise (gets (result r) ∷ noise) rest h = absurd h.0
probe-noise (closed ∷ noise) rest h = absurd h.0
probe-noise (failed ∷ noise) rest h = absurd h.0

probe-verdict :
    (noise rest : List Receipt) (o : Outcome) (why : Option Error) {id : String} {m : ServerMessage}
    {v : Option ServerMessage × Bool}
    → All IsNoise noise
    → v.0 ≡ some m
    → v ≡ (some (reply_to id o why), true)
    → probe (noise ++ gets m ∷ rest)
      ≡ verdict_on (record { job_id = id; outcome = o; error = reason_text why })
unfolding probe
probe-verdict noise rest o why {id} {m} quiet got said =
    probe-noise noise (gets m ∷ rest) quiet
    ∙ ap (λ x. probe (gets x ∷ rest))
        (some-injective m (reply_to id o why) (sym got ∙ ap (λ x. x.0) said))

-- The row of the worker that a completion names, if it is in processing for it.
holder :
    (id worker : String) (w : World)
    → ((r : Row) × (find_job id w.db.jobs ≡ some r)
        × (r.worker_id ≡ worker)
        × (r.state ≡ processing))
      ⊎ IsNotOwner id worker w.db
holder id worker w = elim (Option-cases (find_job id w.db.jobs)) [
  | inl absent ↦ inr (λ r e. absurd (ground (arith, absent, e)))
  | inr (r, e) ↦ elim (Bool-cases (r.worker_id == worker)) [
    | inr another ↦ inr (λ x f. inl (ground (arith, e, f, another, eq_iff r.worker_id worker)))
    | inl own ↦ elim (Bool-cases (is_processing r.state)) [
      | inl on ↦ inl (r, e, ground (arith, own, eq_iff r.worker_id worker), ground (arith, on))
      | inr off ↦ inr (λ x f. inr (ground (arith, e, f, off)))
    ]
  ]
]

-- The probe tells the truth about the fence. Once the server's answer to the completion comes, after
-- any pushed work that it can skip, its verdict is that the completion was let through exactly if
-- the worker that it speaks for holds the job, and that it was rejected, because the lease is lost,
-- if not. (The ids of the table are distinct, and the store's call is answered.)
pub probe-answer :
    (delay lease : ℕ) (id worker : String) (w : World) (noise rest : List Receipt)
    {m : ServerMessage}
    → Unique w.db.jobs
    → (w.turns w.calls).link ≡ answered
    → All IsNoise noise
    → (answer (postgres_queue delay lease) worker (completed id) w).1.0 ≡ some m
    → (((r : Row) × (find_job id w.db.jobs ≡ some r)
          × (r.worker_id ≡ worker)
          × (r.state ≡ processing))
        × (probe (noise ++ gets m ∷ rest) ≡ let_through))
      ⊎ (IsNotOwner id worker w.db
          × (probe (noise ++ gets m ∷ rest) ≡ rejected (error_text lease_lost)))
unfolding probe
probe-answer delay lease id worker w noise rest {m} u a quiet got = elim (holder id worker w) [
  | inl (r, e, o, p) ↦
      let (said, _, _, _, _, _) = answer_owner delay lease id worker "" w u a {r = r} e o p in
      inl ((r, e, o, p), probe-verdict noise rest accepted none quiet got said)
  | inr stranger ↦
      let (said, _, _) = answer_refused delay lease id worker "" w u a stranger in
      inr (
        stranger,
        probe-verdict noise rest refused (some lease_lost) quiet got (ap (λ x. x.1) said),
      )
]
