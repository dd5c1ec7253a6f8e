-- ===== src/Server/System/Apart.antt =====
-- The server of Server.System: lines and channels in which a send of the dispatcher cannot block.
use distq_go.Common.{
  ℕ, suc, ◌≡◌, ◌≢◌, ◌∙◌, refl, sym, subst, inl, inr, ◌⊎◌, Bool, true, false, Option, none, some,
  List, [], ◌∷◌, ◌==◌, arith, All, Bool-cases, if◌then◌else◌,
}
use distq_go.Proto.{WorkerMessage, get_worker_id, ServerMessage}
use distq_go.Server.Dispatcher.{
  Waiter, Channels, same_stream, State, End, drained, errored, blocked, forget,
}
use distq_go.Server.Line.{NotAmong, Ready, Distinct, ServedAs, Served, NotAmong-append_left}
use distq_go.Server.Departures.{absent-ne, leave_line-All}
use distq_go.Server.Passes.{All-append_right}
use distq_go.Server.Stream.{Next, waits, ended, stuck, take_from, deliver}
use distq_go.Server.System.{
  Handler, joining, listening, leaving, Stream, System, set_stream, is_blocked, is_joining,
  after_reply, after_delivery, move, finish_pass, admit, hang_up_on,
}
use distq_go.Server.System.Open.{IsOpen, IsSound}

-- The channels of those in line are empty, and so is that of a stream before its call of register,
-- which is not in line.
pub record IsCalm {S : Type 0} (s : System S) : Type 0 where
  pub empty : All (λ w. s.server.channels w.stream ≡ none) s.server.waiters
  pub joiners :
      (i : ℕ) (t : Stream)
      → s.streams i ≡ some t
      → t.handler ≡ joining
      → (s.server.channels i ≡ none) × NotAmong i s.server.waiters
  pub going : s.halted ≡ false

-- Those in line have streams of their own.
NotAmong-absent :
    (streams : ℕ → Option Stream) (w : Waiter) (ws : List Waiter)
    → IsOpen streams w
    → All (λ x. x.worker_id ≢ w.worker_id) ws
    → All (IsOpen streams) ws
    → NotAmong w.stream ws
NotAmong-absent streams w [] o ne os = tt
NotAmong-absent streams w (x ∷ ws) (t, here, named) ne ((u, there, called), os) = (
  (λ e. ne.0 (ground (arith, e, here, there, named, called))),
  NotAmong-absent streams w ws (t, here, named) ne.1 os,
)

pub IsOpen-Ready :
    (streams : ℕ → Option Stream) (ch : Channels) (ws : List Waiter)
    → Distinct ws
    → All (IsOpen streams) ws
    → All (λ w. ch w.stream ≡ none) ws
    → Ready ch ws
IsOpen-Ready streams ch [] d o e = tt
IsOpen-Ready streams ch (w ∷ ws) d o e = (
  e.0,
  NotAmong-absent streams w ws o.0 (absent-ne w.worker_id ws d.0) o.1,
  IsOpen-Ready streams ch ws d.1 o.1 e.1,
)

pub Ready-empty :
    (ch : Channels) (ws : List Waiter) → Ready ch ws → All (λ w. ch w.stream ≡ none) ws
Ready-empty ch [] r = tt
Ready-empty ch (w ∷ ws) r = (r.0, Ready-empty ch ws r.2)

-- A number that is no stream is nobody's in the line.
unused-NotAmong :
    (streams : ℕ → Option Stream) (i : ℕ) (ws : List Waiter)
    → streams i ≡ none
    → All (IsOpen streams) ws
    → NotAmong i ws
unused-NotAmong streams i [] e o = tt
unused-NotAmong streams i (w ∷ ws) e ((t, here, named), o) =
    ((λ same. absurd (ground (arith, same, here, e))), unused-NotAmong streams i ws e o)

take_from-empty :
    (i : ℕ) (ch : Channels) (ws : List Waiter)
    → All (λ w. ch w.stream ≡ none) ws
    → All (λ w. take_from i ch w.stream ≡ none) ws
take_from-empty i ch [] e = tt
take_from-empty i ch (w ∷ ws) e = (ground (arith, e.0), take_from-empty i ch ws e.1)

-- A stream that the pass has not served is as it was.
pub Served-aside :
    (k : ℕ) (ws : List Waiter) (ch : Channels) (ws' : List Waiter) (ch' : Channels) (end : End)
    → ServedAs ws ch ws' ch' end
    → ch k ≡ none
    → NotAmong k ws
    → (ch' k ≡ none) × NotAmong k ws'
Served-aside k ws ch ws' ch' end (served, split, _, _, same, _) e n =
    let away = subst (NotAmong k) split n in
    (
      same k (NotAmong-append_left k served ws' away) ∙ e,
      All-append_right (λ w. w.stream ≢ k) served ws' away,
    )

pub unblocked : (end : End) → end ≢ blocked → is_blocked end ≡ false
unblocked drained ne = refl
unblocked errored ne = refl
unblocked blocked ne = absurd (ne refl)

-- The handler of a stream registers its worker again only after a message that freed it.
pub after_reply-free :
    (reply : Option ServerMessage) (sent free : Bool)
    → after_reply reply sent free ≡ joining
    → free ≡ true
after_reply-free (some m) false free e = ground (arith, e)
after_reply-free (some m) true true e = refl
after_reply-free (some m) true false e = ground (arith, e)
after_reply-free none sent true e = refl
after_reply-free none sent false e = ground (arith, e)

pub after_delivery-waits : (next : Next) → after_delivery next ≢ joining
after_delivery-waits waits e = ground (arith, e)
after_delivery-waits ended e = ground (arith, e)
after_delivery-waits stuck e = ground (arith, e)

pub is_joining-joining : (h : Handler) → is_joining h ≡ true → h ≡ joining
is_joining-joining joining e = refl
is_joining-joining listening e = ground (arith, e)
is_joining-joining leaving e = ground (arith, e)

-- Whether the stream `i` is apart from the dispatcher: nothing in its channel, and not in line.
abbrev pub IsApart : {S : Type 0} → ℕ → System S → Type 0
IsApart i s = (s.server.channels i ≡ none) × NotAmong i s.server.waiters

module _ {S : Type 0} where
  -- What an event has to keep.
  pub kept-IsCalm :
      (s s' : System S)
      → All (λ w. s'.server.channels w.stream ≡ none) s'.server.waiters
      → ((k : ℕ) → IsApart k s → IsApart k s')
      → ((k : ℕ) (u : Stream)
          → s'.streams k ≡ some u
          → u.handler ≡ joining
          → (s.streams k ≡ some u) ⊎ IsApart k s')
      → s'.halted ≡ false
      → IsCalm s
      → IsCalm s'
  kept-IsCalm s s' empty apart back going c = record {
    empty = empty;
    joiners = λ k u here joins. elim (back k u here joins) [
      | inl before ↦ apart k (c.joiners k u before joins)
      | inr now ↦ now
    ];
    going = going;
  }

  pub pass-IsCalm :
      (s : System S) (res : State S × End)
      → Served s.server.waiters s.server.channels res
      → IsCalm s
      → IsCalm (finish_pass s res)
  pass-IsCalm s (d, end) served c =
      kept-IsCalm s (finish_pass s (d, end)) (Ready-empty d.channels d.waiters served.5)
        (λ k (e, n).
          Served-aside k s.server.waiters s.server.channels d.waiters d.channels end served e n)
        (λ k u here joins. inl here) (unblocked end served.2) c

  -- A stream that goes on, with the line as it was and no channel fuller.
  pub moved-IsCalm :
      (i : ℕ) (t : Stream) (h : Handler) (d : State S) (s : System S)
      → d.waiters ≡ s.server.waiters
      → All (λ w. d.channels w.stream ≡ none) s.server.waiters
      → ((k : ℕ) → s.server.channels k ≡ none → d.channels k ≡ none)
      → (h ≡ joining → IsApart i s)
      → IsCalm s
      → IsCalm (move i t h (record s { server = d }))
  moved-IsCalm i t h d s same empty clean joins c =
      kept-IsCalm s s' (subst (All (λ w. d.channels w.stream ≡ none)) (sym same) empty) keeps
        (λ k u here joined. elim (Bool-cases (same_stream i k)) [
          | inr other ↦ inl (ground (arith, here, other))
          | inl own ↦ inr (
              subst (λ n. IsApart n s') (ground (arith, own))
                (keeps i (joins (ground (arith, here, own, joined)))))
        ])
        c.going c
    where
      s' : System S
      s' = move i t h (record s { server = d })

      keeps : (k : ℕ) → IsApart k s → IsApart k s'
      keeps k (e, n) = (clean k e, subst (NotAmong k) (sym same) n)

  pub admit-IsCalm : (m : WorkerMessage) (s : System S) → IsSound s → IsCalm s → IsCalm (admit m s)
  admit-IsCalm m s v c = elim (Bool-cases (get_worker_id m == "")) [
    | inl nameless ↦ rw nameless c
    | inr named ↦ elim (Bool-cases s.lead.leading) [
      | inr off ↦ simp (named, off) c
      | inl on ↦
          simp (named, on) (opened (record { worker_id = get_worker_id m; handler = joining }))
    ]
  ]
    where
      s' : Stream → System S
      s' t = record s {
        server = record s.server { channels = take_from s.fresh s.server.channels };
        streams = set_stream s.fresh (some t) s.streams;
        fresh = suc s.fresh;
      }

      opened : (t : Stream) → IsCalm (s' t)
      opened t =
          kept-IsCalm s (s' t) (take_from-empty s.fresh s.server.channels s.server.waiters c.empty)
            (λ k (e, n). (ground (arith, e), n))
            (λ k u here joins. elim (Bool-cases (same_stream s.fresh k)) [
              | inr other ↦ inl (ground (arith, here, other))
              | inl own ↦ inr (
                ground (arith, own),
                subst (λ n. NotAmong n s.server.waiters) (ground (arith, own))
                    (unused-NotAmong s.streams s.fresh s.server.waiters
                      (v.unused s.fresh (omega arith)) v.connected),
              )
            ])
            c.going c

  pub hang_up-IsCalm : (i : ℕ) (t : Stream) (s : System S) → IsCalm s → IsCalm (hang_up_on i t s)
  unfolding forget
  hang_up-IsCalm i t s c =
      kept-IsCalm s (hang_up_on i t s)
        (leave_line-All (λ w. s.server.channels w.stream ≡ none) t.worker_id s.server.waiters
          c.empty)
        (λ k (e, n). (e, leave_line-All (λ w. w.stream ≢ k) t.worker_id s.server.waiters n))
        (λ k u here joins. inl (ground (arith, here))) c.going c

  pub if-IsCalm : (b : Bool) (s s' : System S) → IsCalm s → IsCalm s' → IsCalm (if b then s else s')
  if-IsCalm true s s' c c' = c
  if-IsCalm false s s' c c' = c'

  pub deliver-empties :
      (w : Waiter) (sent : Bool) (d : State S) (k : ℕ)
      → d.channels k ≡ none
      → (deliver w sent d).0.channels k ≡ none
  unfolding deliver
  deliver-empties w sent d k e = ground (arith, e)

  pub All-deliver :
      (w : Waiter) (sent : Bool) (d : State S) (ws : List Waiter)
      → All (λ x. d.channels x.stream ≡ none) ws
      → All (λ x. (deliver w sent d).0.channels x.stream ≡ none) ws
  All-deliver w sent d [] e = tt
  All-deliver w sent d (x ∷ xs) e =
      (deliver-empties w sent d x.stream e.0, All-deliver w sent d xs e.1)
