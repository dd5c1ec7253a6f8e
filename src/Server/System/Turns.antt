-- ===== src/Server/System/Turns.antt =====
-- The server of Server.System against the handlers of Server.Stream: a message whose reply and whose
-- turn to register come one right after the other.
use distq_go.Common.{
  ℕ, ◌≡◌, refl, inl, inr, Bool, true, false, none, some, [], ◌∷◌, ◌==◌, arith, Bool-cases,
}
use distq_go.Proto.{WorkerMessage, get_worker_id}
use distq_go.Queue.{Queue}
use distq_go.Server.Answer.{Verdict, answer}
use distq_go.Server.Dispatcher.{End, drained, errored, blocked, register, same_stream}
use distq_go.Server.Stream.{Next, stuck, next_of, greet, admit, receive, after_answer}
use distq_go.Server.System.{
  listening, Stream, System, greets, registers, hears, waiter_of, is_blocked, handle, turn, run,
}

abbrev is_stuck : Next → Bool
is_stuck stuck = true
is_stuck _ = false

is_blocked-stuck : (end : End) → is_blocked end ≡ is_stuck (next_of end)
is_blocked-stuck drained = refl
is_blocked-stuck errored = refl
is_blocked-stuck blocked = refl

same_self : (n : ℕ) → same_stream n n ≡ true
same_self n = ground arith

module _ {S : Type 0} (q : Queue S) (s : System S) (going : s.halted ≡ false) where
  -- A greeting and the turn to register are JobStream's admission, also where the stream is turned
  -- away.
  greets-greet :
      (m : WorkerMessage)
      → s.streams s.fresh ≡ none
      → (run q (greets m ∷ registers s.fresh ∷ []) s).server ≡ (greet q s.lead s.fresh m s.server).0
  unfolding run turn handle greet admit
  greets-greet m unused = elim (Bool-cases (get_worker_id m == "")) [
    | inl nameless ↦ simp (going, nameless, unused) refl
    | inr named ↦ elim (Bool-cases s.lead.leading) [
      | inr off ↦ simp (going, named, off, unused) refl
      | inl on ↦ simp (going, named, on, same_self s.fresh) refl
    ]
  ]

  -- A message on a stream that listens, with its turn to register right after it if it frees the
  -- worker, does to the dispatcher, its channels and the store what the handler of the stream does
  -- as one step, and a send has blocked afterwards exactly if that handler is stuck.
  hears-receive :
      (i : ℕ) (t : Stream) (sent : Bool) (m : WorkerMessage)
      → s.streams i ≡ some t
      → t.handler ≡ listening
      → ((run q (hears i sent m ∷ registers i ∷ []) s).server
          ≡ (receive q s.lead (waiter_of i t) sent m s.server).0)
        × ((run q (hears i sent m ∷ registers i ∷ []) s).halted
            ≡ is_stuck (receive q s.lead (waiter_of i t) sent m s.server).2)
  unfolding run turn handle receive after_answer
  hears-receive i t sent m here listens = heard sent (answer q t.worker_id m s.server.store) refl
    where
      Same : Bool → Type 0
      Same b =
          ((run q (hears i b m ∷ registers i ∷ []) s).server
            ≡ (receive q s.lead (waiter_of i t) b m s.server).0)
          × ((run q (hears i b m ∷ registers i ∷ []) s).halted
              ≡ is_stuck (receive q s.lead (waiter_of i t) b m s.server).2)

      blocks :
          (st : S)
          → is_blocked (register q s.lead (waiter_of i t) (record s.server { store = st })).1
            ≡ is_stuck
                (next_of (register q s.lead (waiter_of i t) (record s.server { store = st })).1)
      blocks st =
          is_blocked-stuck (register q s.lead (waiter_of i t) (record s.server { store = st })).1

      heard : (b : Bool) (res : S × Verdict) → answer q t.worker_id m s.server.store ≡ res → Same b
      heard false (st, (some r, true)) e = simp (going, here, listens, e, same_self i) (refl, refl)
      heard false (st, (some r, false)) e = simp (going, here, listens, e, same_self i) (refl, refl)
      heard true (st, (some r, true)) e =
          simp (going, here, listens, e, same_self i) (refl, blocks st)
      heard true (st, (some r, false)) e = simp (going, here, listens, e, same_self i) (refl, refl)
      heard b (st, (none, true)) e = simp (going, here, listens, e, same_self i) (refl, blocks st)
      heard b (st, (none, false)) e = simp (going, here, listens, e, same_self i) (refl, refl)
