-- ===== src/Storage/Reigns.antt =====
-- Reigns: who leads while a lease lasts, how terms number the reigns, and how one ends.
use distq_go.Common.{
  ℕ, suc, ◌≤◌, ◌<◌, ◌≡◌, refl, sym, ◌∙◌, subst, String, Bool, true, false, Option, none, some, List,
  [], ◌∷◌, ◌==◌, eq_iff, arith, All,
}
use distq_go.Storage.Row.{Db, LeaderRow}
use distq_go.Storage.Reply.{Turn, Result, ok, err}
use distq_go.Storage.Leader.{campaign, is_lapsed, campaign_row}
use distq_go.Storage.Step.{Call, campaigns, renews, resigns, step, History, run}
use distq_go.Storage.Election.{Turnover, stands, wins, extends, leaves, step-Turnover}

-- Whether a call is an election call of one node.
abbrev pub is_by : String → Call → Bool
is_by node (campaigns n lease) = n == node
is_by node (renews n lease) = n == node
is_by node (resigns n) = n == node
is_by node _ = false

-- A call no later than the end of the node's lease, and not its own.
abbrev pub WithinReign : String → ℕ → Turn × Call → Type 0
WithinReign node until (t, c) = (t.now ≤ until) × (is_by node c ≡ false)

within-stands :
    {t : Turn} {c : Call} {l l' : LeaderRow}
    → WithinReign l.leader_id l.lease_expires_at (t, c)
    → Turnover t c l l'
    → l' ≡ l
within-stands w (stands e) = e
within-stands w (wins node lease c h e) = ground arith
within-stands {l = l} w (extends node lease c h e) =
    ground (arith, eq_iff l.leader_id node, eq_iff node l.leader_id)
within-stands {l = l} w (leaves node c h e) = ground (arith, eq_iff node l.leader_id)

-- While a leader's lease lasts and the leader makes no election call of its own, nothing that the
-- other nodes and the workers do changes the leadership row.
pub reign-run :
    (h : History) (db : Db)
    → All (WithinReign db.leader.leader_id db.leader.lease_expires_at) h
    → (run h db).leader ≡ db.leader
unfolding run
reign-run [] db w = refl
reign-run ((t, c) ∷ h) db w =
    let same = within-stands w.0 (step-Turnover t db c) in
    let rest =
      reign-run h (step t c db)
        (subst (λ l. All (WithinReign l.leader_id l.lease_expires_at) h) (sym same) w.1) in
    rest ∙ same

-- The term that Campaign returned, if it returned one, before those of the later calls.
abbrev pub returned : Result (Option ℕ) → List ℕ → List ℕ
returned (ok (some term)) later = term ∷ later
returned _ later = later

-- The terms that the campaigns of a history returned to the nodes that won, in order.
won_by : Turn → Call → Db → List ℕ → List ℕ
won_by t (campaigns node lease) db later = returned (campaign t node lease db).1 later
won_by t _ db later = later

pub terms_won : History → Db → List ℕ
unfolding won_by
terms_won [] db = []
terms_won ((t, c) ∷ h) db = won_by t c db (terms_won h (step t c db))

-- Each element is above the one before it, and the first above `low`.
abbrev pub Ascends : ℕ → List ℕ → Type 0
Ascends low [] = Unit {0}
Ascends low (x ∷ xs) = (low < x) × Ascends x xs

Ascends-le : (low low' : ℕ) (xs : List ℕ) → low ≤ low' → Ascends low' xs → Ascends low xs
Ascends-le low low' [] h a = tt
Ascends-le low low' (x ∷ xs) h a = (omega arith, a.1)

pub Turnover-le : {t : Turn} {c : Call} {l l' : LeaderRow} → Turnover t c l l' → l.term ≤ l'.term
Turnover-le (stands e) = ground arith
Turnover-le (wins node lease _ h e) = ground arith
Turnover-le (extends node lease _ h e) = ground arith
Turnover-le (leaves node _ h e) = ground arith

-- A campaign that returns a term has moved the row to it, one above the term before.
pub campaign-won :
    (t : Turn) (node : String) (lease : ℕ) (db : Db) {term : ℕ}
    → (campaign t node lease db).1 ≡ ok (some term)
    → is_lapsed t.now db.leader ≡ true
      × (term ≡ suc db.leader.term)
      × ((campaign t node lease db).0.leader ≡ campaign_row t.now node lease db.leader)
unfolding campaign
campaign-won t node lease db {term} got = ground arith

returned-Ascends :
    (t : Turn) (node : String) (lease : ℕ) (db : Db) (later : List ℕ) (res : Result (Option ℕ))
    → (campaign t node lease db).1 ≡ res
    → Ascends (campaign t node lease db).0.leader.term later
    → db.leader.term ≤ (campaign t node lease db).0.leader.term
    → Ascends db.leader.term (returned res later)
returned-Ascends t node lease db later (err e) got a up = Ascends-le _ _ later up a
returned-Ascends t node lease db later (ok none) got a up = Ascends-le _ _ later up a
returned-Ascends t node lease db later (ok (some term)) got a up =
    let (lapsed, next, row) = campaign-won t node lease db {term = term} got in
    let top : (campaign t node lease db).0.leader.term ≡ term = ground (arith, row, next) in
    (omega (arith, next), subst (λ n. Ascends n later) top a)

terms_won_step :
    (t : Turn) (c : Call) (db : Db) (later : List ℕ)
    → Ascends (step t c db).leader.term later
    → Ascends db.leader.term (won_by t c db later)
unfolding won_by step
terms_won_step t (campaigns node lease) db later a =
    returned-Ascends t node lease db later (campaign t node lease db).1 refl a
      (unfold step in (Turnover-le (step-Turnover t db (campaigns node lease))))
terms_won_step t c db later a = Ascends-le _ _ later (Turnover-le (step-Turnover t db c)) a

-- In any history the terms that campaigns return ascend strictly, from the term at its start: no
-- two reigns share a term, and a later reign has the greater one.
pub terms_won-Ascends : (h : History) (db : Db) → Ascends db.leader.term (terms_won h db)
unfolding terms_won
terms_won-Ascends [] db = tt
terms_won-Ascends ((t, c) ∷ h) db =
    terms_won_step t c db (terms_won h (step t c db)) (terms_won-Ascends h (step t c db))
