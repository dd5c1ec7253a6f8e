-- ===== src/Server/Etcd/Sessions.antt =====
-- internal/server/election_etcd.go: which sessions the election keeps alive, and its answers.
use distq_go.Common.{
  ℕ, ◌+◌, ◌*◌, ◌≤◌, ◌<◌, ◌≡◌, ◌≢◌, refl, sym, ap, inl, inr, ◌⊎◌, String, Bool, true, false, Option,
  none, some, List, [], ◌∷◌, arith, Option-cases, Bool-cases,
}
use distq_go.Storage.Reply.{Error, Result, ok, err}
use distq_go.Queue.{second}
use distq_go.Server.Election.{Poll, Campaigned, won}
use distq_go.Server.Etcd.{
  Client, EtcdElection, session_ttl, close_session, close_held, try_campaign, after_ping,
  after_session, after_campaign, campaign_once, after_try, campaign, resign, resign_elect,
}

-- What the client library documents of a session's keepalive. It runs from NewSession on; it may end
-- by itself at any time, and no call starts it again; Close ends it, also where Close fails.
pub record Keepalive {S : Type 0} (c : Client S) : Type 0 where
  pub alive : S → ℕ → Bool
  pub pinged : (key : String) (s : S) (k : ℕ) → alive (c.ping key s).0 k ≡ true → alive s k ≡ true
  pub opened :
      (ttl : ℕ) (s : S) (i k : ℕ)
      → (c.new_session ttl s).1 ≡ ok i
      → alive (c.new_session ttl s).0 k ≡ true
      → (k ≡ i) ⊎ (alive s k ≡ true)
  pub not_opened :
      (ttl : ℕ) (s : S) (x : Error) (k : ℕ)
      → (c.new_session ttl s).1 ≡ err x
      → alive (c.new_session ttl s).0 k ≡ true
      → alive s k ≡ true
  pub closed :
      (i : ℕ) (s : S) (k : ℕ) → alive (c.close i s).0 k ≡ true → (k ≢ i) × (alive s k ≡ true)
  pub campaigned :
      (i : ℕ) (key node : String) (s : S) (k : ℕ)
      → alive (c.campaign i key node s).0 k ≡ true
      → alive s k ≡ true
  pub resigned : (i : ℕ) (s : S) (k : ℕ) → alive (c.resign i s).0 k ≡ true → alive s k ≡ true

module _ {S : Type 0} (c : Client S) (live : Keepalive c) where
  -- The only session that may be alive is the one that the election holds.
  abbrev pub HoldsAll : EtcdElection S → Type 0
  HoldsAll e = (k : ℕ) → live.alive e.client k ≡ true → e.session ≡ some k

  abbrev NoneAlive : EtcdElection S → Type 0
  NoneAlive e = (k : ℕ) → live.alive e.client k ≡ false

  none_alive : (e : EtcdElection S) → ((k : ℕ) → live.alive e.client k ≡ true → ⊥) → NoneAlive e
  none_alive e h k = elim (Bool-cases (live.alive e.client k)) [
    | inl on ↦ absurd (h k on)
    | inr off ↦ off
  ]

  close_held-NoneAlive :
      (held : Option ℕ) (e : EtcdElection S)
      → e.session ≡ held
      → HoldsAll e
      → NoneAlive (close_held c held e) × ((close_held c held e).session ≡ none)
  unfolding close_held
  close_held-NoneAlive none e h all = (none_alive e (λ k on. ground (arith, all k on)), h)
  close_held-NoneAlive (some i) e h all = (
    none_alive (close_held c (some i) e)
        (λ k on. let (ne, was) = live.closed i e.client k on in ground (arith, all k was)),
    refl,
  )

  -- What a call of campaignOnce leaves: it failed and no session is alive, or it won and holds the
  -- one that is.
  abbrev pub Tried : EtcdElection S × Result ℕ → Type 0
  Tried (e, reply) =
      ((x : Error) × (reply ≡ err x) × NoneAlive e)
      ⊎ ((i : ℕ) × (reply ≡ ok (c.rev i e.client))
          × (e.session ≡ some i)
          × (e.elect ≡ some i)
          × HoldsAll e)

  after_campaign-Tried :
      (i : ℕ) (e : EtcdElection S) (res : S × Result (Unit {0}))
      → ((k : ℕ) → live.alive res.0 k ≡ true → k ≡ i)
      → Tried (after_campaign c i e res)
  unfolding after_campaign
  after_campaign-Tried i e (s, err x) only = inl (
    _,
    refl,
    none_alive (after_campaign c i e (s, err x)).0
        (λ k on. let (ne, was) = live.closed i s k on in ne (only k was)),
  )
  after_campaign-Tried i e (s, ok u) only =
      inr (i, refl, refl, refl, (λ k on. ap some (sym (only k on))))

  after_session-Tried :
      (e : EtcdElection S) (res : S × Result ℕ)
      → ((x : Error) (k : ℕ) → res.1 ≡ err x → live.alive res.0 k ≡ true → ⊥)
      → ((i k : ℕ) → res.1 ≡ ok i → live.alive res.0 k ≡ true → k ≡ i)
      → Tried (after_session c e res)
  unfolding after_session
  after_session-Tried e (s, err x) none_left only =
      inl (_, refl, none_alive (record e { client = s }) (λ k on. none_left x k refl on))
  after_session-Tried e (s, ok i) none_left only =
      after_campaign-Tried i e (c.campaign i e.key e.node_id s)
        (λ k on. only i k refl (live.campaigned i e.key e.node_id s k on))

  after_ping-Tried :
      (e : EtcdElection S) (res : S × Result (Unit {0}))
      → ((k : ℕ) → live.alive res.0 k ≡ true → ⊥)
      → Tried (after_ping c e res)
  unfolding after_ping
  after_ping-Tried e (s, err x) dead = inl (_, refl, none_alive (record e { client = s }) dead)
  after_ping-Tried e (s, ok u) dead =
      after_session-Tried e (c.new_session e.ttl s)
        (λ x k failed on. dead k (live.not_opened e.ttl s x k failed on))
        (λ i k opened on. elim (live.opened e.ttl s i k opened on) [
          | inl same ↦ same
          | inr was ↦ absurd (dead k was)
        ])

  campaign_once-Tried : (e : EtcdElection S) → HoldsAll e → Tried (campaign_once c e)
  unfolding campaign_once close_session try_campaign
  campaign_once-Tried e all =
      let (dead, gone) = close_held-NoneAlive e.session e refl all in
      let e' = close_session c e in
      after_ping-Tried e' (c.ping e'.key e'.client)
        (λ k on. let was = live.pinged e'.key e'.client k on in ground (arith, dead k, was))

  Tried-HoldsAll : (res : EtcdElection S × Result ℕ) → Tried res → HoldsAll res.0
  Tried-HoldsAll res (inl (x, failed, dead)) = λ k on. absurd (ground (arith, dead k, on))
  Tried-HoldsAll res (inr (i, got, held, led, all)) = all

  -- However often a campaign is retried and whatever the client's calls return, at most one session
  -- is kept alive afterwards, the one that the election holds. And a campaign that returns a term
  -- holds a session and an election, so that Hold and Resign have one: the term is that election's
  -- revision. (No session but the one held was alive before.)
  pub campaign-HoldsAll :
      (polls : List Poll) (e : EtcdElection S)
      → HoldsAll e
      → HoldsAll (campaign c polls e).0
        × (((term : ℕ) → (campaign c polls e).1 ≢ won term)
            ⊎ ((i : ℕ) × ((campaign c polls e).1 ≡ won (c.rev i (campaign c polls e).0.client))
                × ((campaign c polls e).0.session ≡ some i)
                × ((campaign c polls e).0.elect ≡ some i)))
  unfolding campaign
  campaign-HoldsAll [] e all = (all, inl (λ term w. ground (arith, w)))
  campaign-HoldsAll (p ∷ polls) e all =
      let tried = campaign_once-Tried e all in
      let held = Tried-HoldsAll (campaign_once c e) tried in
      elim (Option-cases (after_try p (campaign_once c e).1)) [
        | inl on ↦ rw (on, campaign) (campaign-HoldsAll polls (campaign_once c e).0 held)
        | inr (r, off) ↦ rw (off, campaign) (held, answered r off tried)
      ]
    where
      answered :
          (r : Campaigned)
          → after_try p (campaign_once c e).1 ≡ some r
          → Tried (campaign_once c e)
          → ((term : ℕ) → r ≢ won term)
            ⊎ ((i : ℕ) × (r ≡ won (c.rev i (campaign_once c e).0.client))
                × ((campaign_once c e).0.session ≡ some i)
                × ((campaign_once c e).0.elect ≡ some i))
      answered r off (inl (x, failed, dead)) = inl (λ term w. ground (arith, off, failed, w))
      answered r off (inr (i, got, here, led, only)) = elim (Bool-cases p.ended) [
        | inl over ↦ inl (λ term w. ground (arith, off, over, w))
        | inr going ↦ inr (i, ground (arith, off, going, got), here, led)
      ]

  resign_elect-NoneAlive :
      (led : Option ℕ) (e : EtcdElection S) (i : ℕ)
      → HoldsAll e
      → led ≡ some i
      → NoneAlive (resign_elect c led e).0
  unfolding resign_elect close_session
  resign_elect-NoneAlive none e i all h = absurd (ground (arith, h))
  resign_elect-NoneAlive (some j) e i all h =
      (close_held-NoneAlive e.session (record e { client = (c.resign j e.client).0 }) refl
        (λ k on. all k (live.resigned j e.client k on))).0

  -- Resign of an election that was won leaves no session alive, also where its calls fail. (No
  -- session but the one held was alive before.)
  pub resign-NoneAlive :
      (e : EtcdElection S) (i : ℕ)
      → HoldsAll e
      → e.elect ≡ some i
      → (k : ℕ) → live.alive (resign c e).0.client k ≡ false
  unfolding resign
  resign-NoneAlive e i all led = resign_elect-NoneAlive e.elect e i all led

-- The TTL of a session is at least a second, so that it never asks for a lease that does not expire;
-- and where the lease is at least a second it is the lease, rounded down to seconds.
pub session_ttl_bounds :
    (lease : ℕ)
    → (1 ≤ session_ttl lease)
      × (((lease < second) × (session_ttl lease ≡ 1))
          ⊎ ((second ≤ lease)
              × (session_ttl lease * second ≤ lease)
              × (lease < session_ttl lease * second + second)))
session_ttl_bounds lease = ground arith
