-- ===== src/Queue.antt =====
-- internal/queue/queue.go: the queue holds the retry and lease policy and passes every call on to
-- its store. Durations count nanoseconds.
use distq_go.Common.{
  ℕ, zero, suc, ◌*◌, ◌<◌, ◌≡◌, String, Bool, Option, none, some, arith, ltb, if◌then◌else◌,
}
use distq_go.Common.Int.{ℤ, pos, negsuc, pos_part}
use distq_go.Proto.{Job}
use distq_go.Storage.Reply.{driver, wrapped, Result, ok, err}
use distq_go.Storage.Postgres.{Store}

abbrev pub second : ℕ
second = 1_000_000_000

abbrev pub default_retry_base_delay : ℕ
default_retry_base_delay = 1 * second

abbrev pub default_lease_for : ℕ
default_lease_for = 30 * second

pub record Options (S : Type 0) : Type 0 where
  pub store : Option (Store S)
  pub retry_base_delay : ℤ
  pub lease_for : ℤ

pub record Queue (S : Type 0) : Type 0 where
  pub store : Store S
  pub retry_delay : ℕ
  pub lease_for : ℕ

-- `if d <= 0 { d = fallback }`
abbrev pub positive_or : ℤ → ℕ → ℕ
positive_or (pos zero) fallback = fallback
positive_or (pos (suc n)) fallback = suc n
positive_or (negsuc n) fallback = fallback

module _ {S : Type 0} where
  with_store : Options S → Option (Store S) → Result (Queue S)
  with_store opts none = err (driver "Store is required")
  with_store opts (some s) = ok (record {
    store = s;
    retry_delay = positive_or opts.retry_base_delay default_retry_base_delay;
    lease_for = positive_or opts.lease_for default_lease_for;
  })

  unfoldable pub new : Options S → Result (Queue S)
  unfolding with_store
  new opts = with_store opts opts.store

  persisted : S × Result (Unit {0}) → S × Result (Unit {0})
  persisted (s, ok u) = (s, ok u)
  persisted (s, err e) = (s, err (wrapped "persist job" e))

  unfoldable pub enqueue : Queue S → Job → S → S × Result (Unit {0})
  unfolding persisted
  enqueue q j s = persisted (q.store.create j s)

  unfoldable pub dequeue : Queue S → ℕ → String → S → S × Result (Option Job)
  dequeue q term worker s = q.store.dequeue term worker q.lease_for s

  unfoldable pub complete : Queue S → String → String → S → S × Result (Unit {0})
  complete q id worker s = q.store.finish id worker s

  unfoldable pub fail : Queue S → String → String → String → S → S × Result Bool
  fail q id worker message s = q.store.fail id worker message q.retry_delay s

  unfoldable pub heartbeat : Queue S → String → String → S → S × Result Bool
  heartbeat q id worker s = q.store.heartbeat id worker q.lease_for s

  unfoldable pub next_visible : Queue S → S → S × Result (ℤ × Bool)
  next_visible q s = q.store.next s

  unfoldable pub reap_expired_leases : Queue S → ℕ → S → S × Result ℕ
  reap_expired_leases q term s = q.store.reap term s

  unfoldable pub campaign : Queue S → String → ℕ → S → S × Result (Option ℕ)
  campaign q node lease s = q.store.contend node lease s

  unfoldable pub renew_leadership : Queue S → String → ℕ → S → S × Result (Option ℕ)
  renew_leadership q node lease s = q.store.renew node lease s

  unfoldable pub resign_leadership : Queue S → String → S → S × Result (Unit {0})
  resign_leadership q node s = q.store.resign node s

  -- A queue that New returns has the store that it was given and a positive backoff base and lease:
  -- each is the caller's where that is positive, and the default where it is zero or negative.
  pub new_lem :
      (opts : Options S) {q : Queue S}
      → new opts ≡ ok q
      → (opts.store ≡ some q.store)
        × (0 < q.retry_delay)
        × (0 < q.lease_for)
        × (q.lease_for ≡ (
            if ltb 0 (pos_part opts.lease_for) then pos_part opts.lease_for else default_lease_for))
        × (q.retry_delay ≡ (
            if ltb 0 (pos_part opts.retry_base_delay)
            then pos_part opts.retry_base_delay
            else default_retry_base_delay))
  unfolding new
  new_lem opts {q} h = (ground arith, ground arith, ground arith, ground arith, ground arith)
