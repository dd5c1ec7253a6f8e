-- ===== src/Server/Node/Rounds.antt =====
-- The loop Run of internal/server/leadership.go over any election, against its rounds.
use distq_go.Common.{
  ℕ, ◌≡◌, refl, inl, inr, ◌⊎◌, Bool, true, false, Option, none, some, List, [], ◌∷◌, arith,
}
use distq_go.Server.Leadership.{Leadership, become_lead, demote, resign, Round, gave_up, run}
use distq_go.Server.Leadership
use distq_go.Server.Election.{
  Poll, Campaigned, won, context_ended, polling, Held, lost, shut_down, holding,
}
use distq_go.Server.Node.{Mechanism, Item, quits, goes, returned, hand_over, leave, run_node}

-- A split on what a call of Campaign or Hold returned.
pub Campaigned-cases :
    (c : Campaigned) → (c ≡ polling) ⊎ ((c ≡ context_ended) ⊎ ((term : ℕ) × (c ≡ won term)))
Campaigned-cases polling = inl refl
Campaigned-cases context_ended = inr (inl refl)
Campaigned-cases (won term) = inr (inr (term, refl))

pub Held-cases :
    (h : Option Held) → (h ≡ none) ⊎ ((h ≡ some lost) ⊎ ((h ≡ some shut_down) ⊎ (h ≡ some holding)))
Held-cases none = inl refl
Held-cases (some lost) = inr (inl refl)
Held-cases (some shut_down) = inr (inr (inl refl))
Held-cases (some holding) = inr (inr (inr refl))

-- A turn of the loop, by what the calls of the election return.
module _ {S W : Type 0} (m : Mechanism S W) (polls : List Poll) (w : W) (items : List (Item W))
    (l : Leadership) (s : S) {s' : S} where
  pub gives_up :
      m.campaign polls s ≡ (s', context_ended)
      → run_node m (goes polls w ∷ items) l s ≡ leave m l s'
  unfolding run_node
  gives_up e = ground (arith, e)

  pub shuts_down :
      {s'' : S} {term : ℕ}
      → m.campaign polls s ≡ (s', won term)
      → m.hold w s' ≡ (s'', some shut_down)
      → run_node m (goes polls w ∷ items) l s ≡ leave m (become_lead term l) s''
  unfolding run_node
  shuts_down e h = ground (arith, e, h)

  pub loses :
      {s'' : S} {term : ℕ}
      → m.campaign polls s ≡ (s', won term)
      → m.hold w s' ≡ (s'', some lost)
      → run_node m (goes polls w ∷ items) l s ≡ run_node m items (demote (become_lead term l)) s''
  unfolding run_node
  loses e h = ground (arith, e, h)

module _ {S W : Type 0} (m : Mechanism S W) where
  hand_over-resign :
      (s : S) (res : Leadership × Bool) {resigned : Bool}
      → (hand_over m s res).ran ≡ returned resigned
      → res ≡ ((hand_over m s res).leadership, resigned)
  unfolding hand_over
  hand_over-resign s (l, true) e = ground (arith, e)
  hand_over-resign s (l, false) e = ground (arith, e)

  leave-resign :
      (l : Leadership) (s : S) {resigned : Bool}
      → (leave m l s).ran ≡ returned resigned
      → resign l ≡ ((leave m l s).leadership, resigned)
  unfolding leave
  leave-resign l s {resigned} e = hand_over-resign s (resign l) {resigned = resigned} e

  -- Whatever the election, where the loop returns there are rounds by which the node's leadership
  -- has come to what it is, and it has called the election's Resign exactly if the last round says
  -- so.
  pub run_node-run :
      (items : List (Item W)) (l : Leadership) (s : S) {resigned : Bool}
      → (run_node m items l s).ran ≡ returned resigned
      → (rounds : List Round) × (run rounds l ≡ ((run_node m items l s).leadership, resigned))
  unfolding run_node run
  run_node-run [] l s e = absurd (ground (arith, e))
  run_node-run (quits ∷ items) l s {resigned} e = ([], leave-resign l s {resigned = resigned} e)
  run_node-run (goes polls w ∷ items) l s {resigned} e =
      elim (Campaigned-cases (m.campaign polls s).1) [
        | inl c ↦ absurd (ground (arith, e, c))
        | inr (inl c) ↦
            rw (c, run_node)
              (
                gave_up ∷ [],
                leave-resign l (m.campaign polls s).0 {resigned = resigned} (rw (c, run_node) at e),
              )
        | inr (inr (term, c)) ↦ elim (Held-cases (m.hold w (m.campaign polls s).0).1) [
          | inl h ↦ absurd (ground (arith, e, c, h))
          | inr (inl h) ↦
              let (rounds, same) =
                run_node-run items (demote (become_lead term l)) (m.hold w (m.campaign polls s).0).0
                  {resigned = resigned} (rw (c, h, run_node) at e) in
              rw (c, h, run_node) (Leadership.lost term ∷ rounds, same)
          | inr (inr (inl h)) ↦
              rw (c, h, run_node)
                (
                  Leadership.shut_down term ∷ [],
                  leave-resign (become_lead term l) (m.hold w (m.campaign polls s).0).0
                      {resigned = resigned} (rw (c, h, run_node) at e),
                )
          | inr (inr (inr h)) ↦ absurd (ground (arith, e, c, h))
        ]
      ]
