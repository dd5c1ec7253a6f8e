-- ===== src/Server/System/Open.antt =====
-- The server of Server.System: who stands in the line, in every state that it can reach.
use distq_go.Common.{
  ℕ, suc, ◌≤◌, ◌≡◌, ◌≢◌, ◌∙◌, refl, sym, subst, inl, inr, Bool, true, false, Option, none, some,
  List, [], ◌∷◌, ◌++◌, ◌==◌, arith, All, Bool-cases, if◌then◌else◌,
}
use distq_go.Proto.{WorkerMessage, get_worker_id}
use distq_go.Queue.{Queue}
use distq_go.Server.Answer.{answer}
use distq_go.Server.Dispatcher.{
  Waiter, Channels, same_stream, State, Lead, push, register, leave_line, forget,
}
use distq_go.Server.Line.{Distinct}
use distq_go.Server.Departures.{leave_line-All, leave_line-ne, leave_line-Distinct}
use distq_go.Server.Passes.{
  IsRest, IsRest-All, IsRest-Distinct, push-IsRest, register-IsRest, register-Distinct,
}
use distq_go.Server.Stream.{take_from, deliver}
use distq_go.Server.System.{
  Handler, joining, listening, Stream, System, Event, greets, registers, hears, delivers, hangs_up,
  pushes, leads, stores, waiter_of, set_stream, is_joining, is_listening, after_reply,
  after_delivery, admit, move, finish_pass, hang_up_on, register_on, hear_on, deliver_on, close_on,
  on_open, handle, turn, run, booted,
}

-- The waiter's stream is open, under the waiter's name.
abbrev pub IsOpen : (ℕ → Option Stream) → Waiter → Type 0
IsOpen streams w = (t : Stream) × (streams w.stream ≡ some t) × (t.worker_id ≡ w.worker_id)

-- A worker stands in line once at most, and only for a stream that is open under its name; and the
-- numbers from `fresh` on are no streams.
pub record IsSound {S : Type 0} (s : System S) : Type 0 where
  pub distinct : Distinct s.server.waiters
  pub connected : All (IsOpen s.streams) s.server.waiters
  pub unused : (i : ℕ) → s.fresh ≤ i → s.streams i ≡ none

-- Streams that are open stay open under their names.
abbrev Keeps : (streams streams' : ℕ → Option Stream) → Type 0
Keeps streams streams' =
    (k : ℕ) (t : Stream)
    → streams k ≡ some t
    → (t' : Stream) × (streams' k ≡ some t') × (t'.worker_id ≡ t.worker_id)

Keeps-IsOpen :
    (streams streams' : ℕ → Option Stream) (ws : List Waiter)
    → Keeps streams streams'
    → All (IsOpen streams) ws
    → All (IsOpen streams') ws
Keeps-IsOpen streams streams' [] keeps o = tt
Keeps-IsOpen streams streams' (w ∷ ws) keeps ((t, here, named), o) =
    let (t', here', named') = keeps w.stream t here in
    ((t', here', named' ∙ named), Keeps-IsOpen streams streams' ws keeps o)

set_stream-Keeps :
    (i : ℕ) (t : Stream) (h : Handler) (streams : ℕ → Option Stream)
    → streams i ≡ some t
    → Keeps streams (set_stream i (some (record t { handler = h })) streams)
set_stream-Keeps i t h streams e k u here = elim (Bool-cases (same_stream i k)) [
  | inl same ↦ (record t { handler = h }, ground (arith, same), ground (arith, same, e, here))
  | inr other ↦ (u, ground (arith, other, here), refl)
]

new_stream-Keeps :
    (i : ℕ) (t : Stream) (streams : ℕ → Option Stream)
    → streams i ≡ none
    → Keeps streams (set_stream i (some t) streams)
new_stream-Keeps i t streams e k u here = (u, ground (arith, e, here), refl)

-- The waiters of other names keep their streams when one is closed.
close-IsOpen :
    (i : ℕ) (t : Stream) (streams : ℕ → Option Stream) (ws : List Waiter)
    → streams i ≡ some t
    → All (λ w. w.worker_id ≢ t.worker_id) ws
    → All (IsOpen streams) ws
    → All (IsOpen (set_stream i none streams)) ws
close-IsOpen i t streams [] e ne o = tt
close-IsOpen i t streams (w ∷ ws) e ne ((u, here, named), o) =
    ((u, ground (arith, e, here, named, ne.0), named), close-IsOpen i t streams ws e ne.1 o)

module _ {S : Type 0} where
  pub boot-IsSound : (lead : Lead) (st : S) → IsSound (booted lead st)
  boot-IsSound lead st = record { distinct = tt; connected = tt; unused = λ i h. refl }

  -- The line may shrink from its front, and streams may move on.
  rest-IsSound :
      (s s' : System S)
      → IsRest s.server.waiters s'.server.waiters
      → Keeps s.streams s'.streams
      → ((i : ℕ) → s'.fresh ≤ i → s'.streams i ≡ none)
      → IsSound s
      → IsSound s'
  rest-IsSound s s' rest keeps unused v = record {
    distinct = IsRest-Distinct s.server.waiters s'.server.waiters rest v.distinct;
    connected =
        Keeps-IsOpen s.streams s'.streams s'.server.waiters keeps
          (IsRest-All (IsOpen s.streams) s.server.waiters s'.server.waiters rest v.connected);
    unused = unused;
  }

  moved_unused :
      (i : ℕ) (t : Stream) (h : Handler) (s : System S)
      → s.streams i ≡ some t
      → IsSound s
      → (k : ℕ) → s.fresh ≤ k
      → set_stream i (some (record t { handler = h })) s.streams k ≡ none
  moved_unused i t h s e v k le = ground (arith, e, v.unused k, v.unused i)

  -- A stream is opened under the next number.
  opened-IsSound :
      (t : Stream) (chans : Channels) (s : System S)
      → IsSound s
      → IsSound (record s {
        server = record s.server { channels = chans };
        streams = set_stream s.fresh (some t) s.streams;
        fresh = suc s.fresh;
      })
  opened-IsSound t chans s v = record {
    distinct = v.distinct;
    connected =
        Keeps-IsOpen s.streams (set_stream s.fresh (some t) s.streams) s.server.waiters
          (new_stream-Keeps s.fresh t s.streams (v.unused s.fresh (omega arith))) v.connected;
    unused = λ k h. ground (arith, v.unused k);
  }

  admit-IsSound : (m : WorkerMessage) (s : System S) → IsSound s → IsSound (admit m s)
  admit-IsSound m s v = elim (Bool-cases (get_worker_id m == "")) [
    | inl nameless ↦ rw nameless v
    | inr named ↦ elim (Bool-cases s.lead.leading) [
      | inr off ↦ simp (named, off) v
      | inl on ↦
          simp (named, on)
            (opened-IsSound (record { worker_id = get_worker_id m; handler = joining })
              (take_from s.fresh s.server.channels) s v)
    ]
  ]

  hang_up-IsSound :
      (i : ℕ) (t : Stream) (s : System S)
      → s.streams i ≡ some t
      → IsSound s
      → IsSound (hang_up_on i t s)
  unfolding forget
  hang_up-IsSound i t s e v = record {
    distinct = leave_line-Distinct t.worker_id s.server.waiters v.distinct;
    connected =
        close-IsOpen i t s.streams (leave_line t.worker_id s.server.waiters) e
          (leave_line-ne t.worker_id s.server.waiters v.distinct)
          (leave_line-All (IsOpen s.streams) t.worker_id s.server.waiters v.connected);
    unused = λ k h. ground (arith, v.unused k);
  }

-- A stream that joins the line is open.
pub All-snoc {ℓ} :
    (P : Waiter → Type ℓ) (ws : List Waiter) (w : Waiter) → All P ws → P w → All P (ws ++ w ∷ [])
All-snoc P [] w h p = (p, tt)
All-snoc P (x ∷ xs) w h p = (h.0, All-snoc P xs w h.1 p)

module _ {S : Type 0} (q : Queue S) where
  moved-IsSound :
      (i : ℕ) (t : Stream) (h : Handler) (d : State S) (s : System S)
      → s.streams i ≡ some t
      → d.waiters ≡ s.server.waiters
      → IsSound s
      → IsSound (move i t h (record s { server = d }))
  moved-IsSound i t h d s e same v =
      rest-IsSound s (move i t h (record s { server = d })) ([], sym same)
        (set_stream-Keeps i t h s.streams e) (moved_unused i t h s e v) v

  register-IsSound :
      (i : ℕ) (t : Stream) (s : System S)
      → s.streams i ≡ some t
      → IsSound s
      → IsSound (finish_pass (move i t listening s) (register q s.lead (waiter_of i t) s.server))
  register-IsSound i t s e v =
      let d = (register q s.lead (waiter_of i t) s.server).0 in
      record {
        distinct = register-Distinct q s.lead (waiter_of i t) s.server v.distinct;
        connected =
            Keeps-IsOpen s.streams
              (set_stream i (some (record t { handler = listening })) s.streams) d.waiters
              (set_stream-Keeps i t listening s.streams e)
              (elim (register-IsRest q s.lead (waiter_of i t) s.server) [
                | inl (there, same) ↦ subst (All (IsOpen s.streams)) (sym same) v.connected
                | inr (new, rest) ↦
                    IsRest-All (IsOpen s.streams) (s.server.waiters ++ waiter_of i t ∷ []) d.waiters
                      rest
                      (All-snoc (IsOpen s.streams) s.server.waiters (waiter_of i t) v.connected
                        (t, e, refl))
              ]);
        unused = moved_unused i t listening s e v;
      }

  pub deliver-line :
      (w : Waiter) (sent : Bool) (d : State S) → (deliver w sent d).0.waiters ≡ d.waiters
  unfolding deliver
  deliver-line w sent d = ground arith

  -- What an event on an open stream does.
  on_open-IsSound :
      (o : Option Stream) (act : Stream → System S → System S) (s : System S)
      → ((t : Stream) → o ≡ some t → IsSound (act t s))
      → IsSound s
      → IsSound (on_open q o act s)
  on_open-IsSound none act s h v = v
  on_open-IsSound (some t) act s h v = h t refl

  if-IsSound : (b : Bool) (s s' : System S) → IsSound s → IsSound s' → IsSound (if b then s else s')
  if-IsSound true s s' v v' = v
  if-IsSound false s s' v v' = v'

  pub handle-IsSound : (e : Event S) (s : System S) → IsSound s → IsSound (handle q e s)
  unfolding handle
  handle-IsSound (greets m) s v = admit-IsSound m s v
  handle-IsSound (registers i) s v =
      on_open-IsSound (s.streams i) (register_on q i) s
        (λ t e. if-IsSound (is_joining t.handler) _ s (register-IsSound i t s e v) v) v
  handle-IsSound (hears i sent msg) s v =
      on_open-IsSound (s.streams i) (hear_on q i sent msg) s
        (λ t e.
          if-IsSound (is_listening t.handler) _ s
            (let (st, (reply, free)) = answer q t.worker_id msg s.server.store in
              moved-IsSound i t (after_reply reply sent free) (record s.server { store = st }) s e
                refl v)
            v)
        v
  handle-IsSound (delivers i sent) s v =
      on_open-IsSound (s.streams i) (deliver_on q i sent) s
        (λ t e.
          if-IsSound (is_listening t.handler) _ s
            (moved-IsSound i t (after_delivery (deliver (waiter_of i t) sent s.server).2)
              (deliver (waiter_of i t) sent s.server).0 s e
              (deliver-line (waiter_of i t) sent s.server) v)
            v)
        v
  handle-IsSound (hangs_up i) s v =
      on_open-IsSound (s.streams i) (close_on q i) s
        (λ t e. if-IsSound (is_joining t.handler) s _ v (hang_up-IsSound i t s e v)) v
  handle-IsSound (pushes down) s v =
      rest-IsSound s (finish_pass s (push q down s.lead s.server))
        (push-IsRest q down s.lead s.server) (λ k t e. (t, e, refl)) v.unused v
  handle-IsSound (leads lead) s v = record {
    distinct = v.distinct;
    connected = v.connected;
    unused = v.unused;
  }
  handle-IsSound (stores change) s v = record {
    distinct = v.distinct;
    connected = v.connected;
    unused = v.unused;
  }

  pub turn-IsSound : (e : Event S) (s : System S) → IsSound s → IsSound (turn q e s)
  unfolding turn
  turn-IsSound e s v = if-IsSound s.halted s (handle q e s) v (handle-IsSound e s v)

  pub run-IsSound : (es : List (Event S)) (s : System S) → IsSound s → IsSound (run q es s)
  unfolding run
  run-IsSound [] s v = v
  run-IsSound (e ∷ es) s v = run-IsSound es (turn q e s) (turn-IsSound e s v)

  -- In every state that a server can reach from its start, whatever the order of its events, a
  -- worker stands in line once at most, and only for a stream that is open under its name.
  pub reached-IsOpen :
      (lead : Lead) (st : S) (es : List (Event S))
      → Distinct (run q es (booted lead st)).server.waiters
        × All
            (IsOpen (run q es (booted lead st)).streams)
            (run q es (booted lead st)).server.waiters
  reached-IsOpen lead st es =
      let v = run-IsSound es (booted lead st) (boot-IsSound lead st) in (v.distinct, v.connected)
