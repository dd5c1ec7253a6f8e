-- ===== src/Server/Node/Endings.antt =====
-- How Run of internal/server/leadership.go ends, whatever the election: at a call that does not come
-- back, or with its calls in order.
use distq_go.Common.{◌≡◌, ◌⊎◌, Bool, true, false, none, some, List, [], ◌∷◌}
use distq_go.Server.Leadership.{Leadership, leading, current_term, reign_is_over}
use distq_go.Server.Election.{polling, holding}
use distq_go.Server.Node.{Mechanism, Item, Node, returned, run_node}
use distq_go.Server.Node.Calls.{Act, campaigns, holds, logged, is_orderly, resigned_in, last_term}

-- A call that Run cannot come back from: a Campaign or a Hold that waits still, or a Hold without a
-- session, which panics.
abbrev is_stuck : Act → Bool
is_stuck (campaigns polling) = true
is_stuck (holds none) = true
is_stuck (holds (some holding)) = true
is_stuck _ = false

-- Whether the last call is one of these.
abbrev pub ends_stuck : List Act → Bool
ends_stuck [] = false
ends_stuck (act ∷ []) = is_stuck act
ends_stuck (act ∷ next ∷ acts) = ends_stuck (next ∷ acts)

module _ {S W : Type 0} (m : Mechanism S W) where
  -- What Run of a new node leaves when it returns: how the election was called, and that the node does
  -- not lead, that the context of its last reign is over, and which term it has.
  abbrev pub HasReturned : Bool → Node (S × List Act) → Type 0
  HasReturned resigned n =
      (n.ran ≡ returned resigned)
      × (is_orderly n.election.1 ≡ true)
      × (resigned_in n.election.1 ≡ resigned)
      × (leading n.leadership ≡ false)
      × (reign_is_over n.leadership ≡ true)
      × (current_term n.leadership ≡ last_term 0 n.election.1)

  -- A Run whose context ends comes back, if its calls do.
  Comes : List (Item W) → Leadership → S × List Act → Type 0
  Comes items l s =
      ((resigned : Bool) × ((run_node (logged m) items l s).ran ≡ returned resigned))
      ⊎ (ends_stuck (run_node (logged m) items l s).election.1 ≡ true)
