-- ===== src/Server/System/Calm.antt =====
-- The server of Server.System: when a send of the dispatcher cannot block.
use distq_go.Common.{
  ℕ, ◌≡◌, ◌≢◌, refl, inl, inr, ◌⊎◌, Bool, true, false, Option, none, some, List, [], ◌∷◌, ◌++◌,
  arith, Bool-cases,
}
use distq_go.Proto.{WorkerMessage}
use distq_go.Queue.{Queue}
use distq_go.Server.Answer.{Verdict, answer}
use distq_go.Server.Dispatcher.{State, End, drained, Lead, push, push_locked, register}
use distq_go.Server.Line.{Served, push_locked-Served, register-Served}
use distq_go.Server.Stream.{deliver}
use distq_go.Server.System.{
  joining, listening, Stream, System, Event, greets, registers, hears, delivers, hangs_up, pushes,
  leads, stores, waiter_of, set_stream, is_joining, is_listening, after_reply, after_delivery, move,
  finish_pass, finish_answer, register_on, hear_on, deliver_on, close_on, on_open, handle, turn,
  run, booted,
}
use distq_go.Server.System.Open.{IsSound, All-snoc, turn-IsSound, boot-IsSound, deliver-line}
use distq_go.Server.System.Apart.{
  IsCalm, IsApart, IsOpen-Ready, Ready-empty, Served-aside, unblocked, after_reply-free,
  after_delivery-waits, is_joining-joining, kept-IsCalm, pass-IsCalm, moved-IsCalm, admit-IsCalm,
  hang_up-IsCalm, if-IsCalm, deliver-empties, All-deliver,
}

module _ {S : Type 0} (q : Queue S) where
  on_open-IsCalm :
      (o : Option Stream) (act : Stream → System S → System S) (s : System S)
      → ((t : Stream) → o ≡ some t → IsCalm (act t s))
      → IsCalm s
      → IsCalm (on_open q o act s)
  on_open-IsCalm none act s h c = c
  on_open-IsCalm (some t) act s h c = h t refl

  push-IsCalm :
      (down : Bool) (s : System S)
      → IsSound s
      → IsCalm s
      → IsCalm (finish_pass s (push q down s.lead s.server))
  unfolding push
  push-IsCalm true s v c = record { empty = c.empty; joiners = c.joiners; going = refl }
  push-IsCalm false s v c =
      pass-IsCalm s (push_locked q s.lead s.server)
        (push_locked-Served q s.lead s.server (
          IsOpen-Ready s.streams s.server.channels s.server.waiters v.distinct v.connected c.empty))
        c

  -- The turn of a stream to register.
  register-IsCalm :
      (i : ℕ) (t : Stream) (s : System S)
      → s.streams i ≡ some t
      → t.handler ≡ joining
      → IsSound s
      → IsCalm s
      → IsCalm (finish_pass (move i t listening s) (register q s.lead (waiter_of i t) s.server))
  register-IsCalm i t s here joins v c =
      let (e, n) = c.joiners i t here joins in
      elim (register-Served q s.lead (waiter_of i t) s.server
        (IsOpen-Ready s.streams s.server.channels s.server.waiters v.distinct v.connected c.empty)
        v.distinct n e) [
          | inl (there, same) ↦ rw same (
              kept-IsCalm s (finish_pass (move i t listening s) (s.server, drained)) c.empty
                (λ k apart. apart) (others (s.server, drained)) refl c)
          | inr (new, served, dist) ↦ joined (register q s.lead (waiter_of i t) s.server) served
        ]
    where
      others :
          (res : State S × End) (k : ℕ) (u : Stream)
          → set_stream i (some (record t { handler = listening })) s.streams k ≡ some u
          → u.handler ≡ joining
          → (s.streams k ≡ some u) ⊎ IsApart k (finish_pass (move i t listening s) res)
      others res k u now joins' = inl (ground (arith, now, joins'))

      joined :
          (res : State S × End)
          → Served (s.server.waiters ++ waiter_of i t ∷ []) s.server.channels res
          → IsCalm (finish_pass (move i t listening s) res)
      joined (d, end) served = record {
        empty = Ready-empty d.channels d.waiters served.5;
        joiners = λ k u now joins'.
            let (e', n') = c.joiners k u (ground (arith, now, joins')) joins' in
            Served-aside k (s.server.waiters ++ waiter_of i t ∷ []) s.server.channels d.waiters
              d.channels end served e'
              (All-snoc (λ w. w.stream ≢ k) s.server.waiters (waiter_of i t) n'
                (λ same. ground (arith, same, now, joins')));
        going = unblocked end served.2;
      }

  -- Whether a message may come now: it does not free the worker, or the worker's stream is apart
  -- from the dispatcher, its last job taken from its channel and its worker out of the line.
  abbrev IsTimely : ℕ → WorkerMessage → Option Stream → System S → Type 0
  IsTimely i msg none s = Unit {0}
  IsTimely i msg (some t) s = ((answer q t.worker_id msg s.server.store).1.1 ≡ false) ⊎ IsApart i s

  abbrev IsTimelyEvent : Event S → System S → Type 0
  IsTimelyEvent (hears i sent msg) s = IsTimely i msg (s.streams i) s
  IsTimelyEvent _ s = Unit {0}

  -- Every message of a run comes when it may.
  abbrev pub AllTimely : List (Event S) → System S → Type 0
  AllTimely [] s = Unit {0}
  AllTimely (e ∷ es) s = IsTimelyEvent e s × AllTimely es (turn q e s)

  hear-IsCalm :
      (i : ℕ) (sent : Bool) (msg : WorkerMessage) (o : Option Stream) (s : System S)
      → s.streams i ≡ o
      → IsTimely i msg o s
      → IsCalm s
      → IsCalm (on_open q o (hear_on q i sent msg) s)
  hear-IsCalm i sent msg none s here timely c = c
  hear-IsCalm i sent msg (some t) s here timely c =
      if-IsCalm (is_listening t.handler) _ s
        (heard (answer q t.worker_id msg s.server.store) timely) c
    where
      heard :
          (res : S × Verdict)
          → (res.1.1 ≡ false) ⊎ IsApart i s
          → IsCalm (finish_answer i t sent s res)
      heard (st, (reply, free)) may =
          moved-IsCalm i t (after_reply reply sent free) (record s.server { store = st }) s refl
            c.empty (λ k e. e)
            (λ joins. elim may [
              | inl busy ↦ ground (arith, busy, after_reply-free reply sent free joins)
              | inr apart ↦ apart
            ])
            c

  handle-IsCalm :
      (e : Event S) (s : System S)
      → IsTimelyEvent e s
      → IsSound s
      → IsCalm s
      → IsCalm (handle q e s)
  unfolding handle
  handle-IsCalm (greets m) s timely v c = admit-IsCalm m s v c
  handle-IsCalm (registers i) s timely v c =
      on_open-IsCalm (s.streams i) (register_on q i) s
        (λ t here. elim (Bool-cases (is_joining t.handler)) [
          | inl joins ↦
              rw joins (register-IsCalm i t s here (is_joining-joining t.handler joins) v c)
          | inr other ↦ rw other c
        ])
        c
  handle-IsCalm (hears i sent msg) s timely v c =
      hear-IsCalm i sent msg (s.streams i) s refl timely c
  handle-IsCalm (delivers i sent) s timely v c =
      on_open-IsCalm (s.streams i) (deliver_on q i sent) s
        (λ t here.
          if-IsCalm (is_listening t.handler) _ s
            (let w = waiter_of i t in
              moved-IsCalm i t (after_delivery (deliver w sent s.server).2)
                (deliver w sent s.server).0 s (deliver-line q w sent s.server)
                (All-deliver w sent s.server s.server.waiters c.empty)
                (deliver-empties w sent s.server)
                (λ joins. absurd (after_delivery-waits (deliver w sent s.server).2 joins)) c)
            c)
        c
  handle-IsCalm (hangs_up i) s timely v c =
      on_open-IsCalm (s.streams i) (close_on q i) s
        (λ t here. if-IsCalm (is_joining t.handler) s _ c (hang_up-IsCalm i t s c)) c
  handle-IsCalm (pushes down) s timely v c = push-IsCalm down s v c
  handle-IsCalm (leads lead) s timely v c = record {
    empty = c.empty;
    joiners = c.joiners;
    going = c.going;
  }
  handle-IsCalm (stores change) s timely v c = record {
    empty = c.empty;
    joiners = c.joiners;
    going = c.going;
  }

  run-IsCalm :
      (es : List (Event S)) (s : System S)
      → AllTimely es s
      → IsSound s
      → IsCalm s
      → IsCalm (run q es s)
  unfolding run turn
  run-IsCalm [] s timely v c = c
  run-IsCalm (e ∷ es) s timely v c =
      run-IsCalm es (turn q e s) timely.1 (turn-IsSound q e s v)
        (simp c.going (handle-IsCalm e s timely.0 v c))

  -- No send of the dispatcher ever blocks, whatever the order of the events of a server from its
  -- start, as long as each message that frees a worker finds that worker's stream with an empty
  -- channel and out of the line.
  pub never_blocks :
      (lead : Lead) (st : S) (es : List (Event S))
      → AllTimely es (booted lead st)
      → (run q es (booted lead st)).halted ≡ false
  never_blocks lead st es timely =
      (run-IsCalm es (booted lead st) timely (boot-IsSound lead st)
        (record { empty = tt; joiners = λ i t e. ground (arith, e); going = refl })).going
