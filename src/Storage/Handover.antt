-- ===== src/Storage/Handover.antt =====
-- How a reign ends and the next begins: the answers of the election calls, a leader that stalled,
-- and a resignation.
use distq_go.Common.{
  ℕ, suc, ◌+◌, ◌≤◌, ◌<◌, ◌≡◌, ◌≢◌, inl, inr, ◌⊎◌, String, false, none, some, [], ◌∷◌, ◌==◌, eq_iff,
  arith, Bool-cases, All,
}
use distq_go.Storage.Row.{Db, LeaderRow}
use distq_go.Storage.Reply.{Turn, answered, ok}
use distq_go.Storage.Leader.{campaign, renew_leadership, resign_leadership, is_lapsed, is_held_by}
use distq_go.Storage.Step.{Call, campaigns, step, History, run}
use distq_go.Storage.Election.{Turnover, stands, wins, extends, leaves, step-Turnover}

-- A node whose lease has run out, or that does not lead.
abbrev pub IsDeposed : String → ℕ → LeaderRow → Type 0
IsDeposed node since l = (l.leader_id ≢ node) ⊎ (l.lease_expires_at < since)

not_held-IsDeposed :
    (node : String) (now : ℕ) (l : LeaderRow) → is_held_by node now l ≡ false → IsDeposed node now l
not_held-IsDeposed node now l h = elim (Bool-cases (l.leader_id == node)) [
  | inl mine ↦ inr (ground arith)
  | inr other ↦ inl (λ e. ground (arith, eq_iff l.leader_id node))
]

-- For calls that are answered: either the lease has run out, and a campaign gives the caller the
-- row with the next term and a full lease; or it has not, and a campaign returns no term and
-- changes nothing. And either the caller holds a lease that has not run out, and a renewal extends
-- it and keeps the term; or it does not, and the renewal is refused and changes nothing.
pub election_answers :
    (t : Turn) (node : String) (lease : ℕ) (db : Db)
    → t.link ≡ answered
    → (((db.leader.lease_expires_at < t.now)
          × (campaign t node lease db ≡ (
            record db {
              leader = record {
                leader_id = node;
                term = suc db.leader.term;
                lease_expires_at = t.now + lease;
              };
            },
            ok (some (suc db.leader.term)),
          )))
        ⊎ ((t.now ≤ db.leader.lease_expires_at) × (campaign t node lease db ≡ (db, ok none))))
      × (((db.leader.leader_id ≡ node)
            × (t.now ≤ db.leader.lease_expires_at)
            × (renew_leadership t node lease db ≡ (
              record db { leader = record db.leader { lease_expires_at = t.now + lease } },
              ok (some db.leader.term),
            )))
          ⊎ (IsDeposed node t.now db.leader × (renew_leadership t node lease db ≡ (db, ok none))))
unfolding campaign renew_leadership
election_answers t node lease db a = (
  elim (Bool-cases (is_lapsed t.now db.leader)) [
    | inl h ↦ inl (ground arith, ground arith)
    | inr h ↦ inr (ground arith, ground arith)
  ],
  elim (Bool-cases (is_held_by node t.now db.leader)) [
    | inl h ↦ inl (ground (arith, eq_iff db.leader.leader_id node), ground arith, ground arith)
    | inr h ↦ inr (not_held-IsDeposed node t.now db.leader h, ground arith)
  ],
)

deposed_refused :
    (t : Turn) (node : String) (lease : ℕ) (db : Db)
    → t.link ≡ answered
    → IsDeposed node t.now db.leader
    → renew_leadership t node lease db ≡ (db, ok none)
unfolding renew_leadership
deposed_refused t node lease db a d = ground (arith, eq_iff db.leader.leader_id node)

-- A call at `since` or later that is no campaign of the node's.
abbrev pub LaterNoCampaign : String → ℕ → Turn × Call → Type 0
LaterNoCampaign node since (t, c) = (since ≤ t.now) × ((lease : ℕ) → c ≢ campaigns node lease)

IsDeposed-step :
    (node : String) (since : ℕ) {t : Turn} {c : Call} {l l' : LeaderRow}
    → node ≢ ""
    → LaterNoCampaign node since (t, c)
    → Turnover t c l l'
    → IsDeposed node since l
    → IsDeposed node since l'
IsDeposed-step node since ne w (stands e) d = ground arith
IsDeposed-step node since ne w (wins other lease c h e) d = inl (λ i. w.1 lease (ground arith))
IsDeposed-step node since {l = l} ne w (extends other lease c h e) d =
    ground (arith, eq_iff l.leader_id other)
IsDeposed-step node since ne w (leaves other c h e) d = ground arith

-- A leader that has stalled past its lease cannot bring it back: from then on every renewal of
-- its own that is answered is refused, whatever the others do, until it campaigns again. (Its
-- name is not empty, and no call of the history is earlier than the stall.)
pub deposed_stays :
    (node : String) (since : ℕ) (h : History) (db : Db)
    → node ≢ ""
    → IsDeposed node since db.leader
    → All (LaterNoCampaign node since) h
    → (t : Turn) (lease : ℕ) → t.link ≡ answered
    → since ≤ t.now
    → renew_leadership t node lease (run h db) ≡ (run h db, ok none)
unfolding run
deposed_stays node since [] db ne d all t lease a le =
    deposed_refused t node lease db a (ground arith)
deposed_stays node since ((t', c) ∷ h) db ne d all t lease a le =
    deposed_stays node since h (step t' c db) ne
      (IsDeposed-step node since ne all.0 (step-Turnover t' db c) d) all.1 t lease a le

-- A leader that resigns hands over at once: any node that campaigns afterwards, at any time after
-- the epoch, wins the next term, with no lease to wait out. (For calls that are answered.)
pub resign_hands_over :
    (t t' : Turn) (node next : String) (lease : ℕ) (db : Db)
    → t.link ≡ answered
    → t'.link ≡ answered
    → 0 < t'.now
    → db.leader.leader_id ≡ node
    → (campaign t' next lease (resign_leadership t node db).0).1 ≡ ok (some (suc db.leader.term))
unfolding campaign resign_leadership
resign_hands_over t t' node next lease db a a' late i =
    ground (arith, eq_iff db.leader.leader_id node)

-- A renewal that is answered with false met a row in other hands, or a lease that had run out, and
-- left it alone.
pub renew_refused :
    (t : Turn) (node : String) (lease : ℕ) (db : Db)
    → (renew_leadership t node lease db).1 ≡ ok none
    → ((renew_leadership t node lease db).0.leader ≡ db.leader) × IsDeposed node t.now db.leader
unfolding renew_leadership
renew_refused t node lease db got = elim (Bool-cases (is_held_by node t.now db.leader)) [
  | inl h ↦ absurd (ground (arith, h))
  | inr h ↦ (ground (arith, h), not_held-IsDeposed node t.now db.leader h)
]
