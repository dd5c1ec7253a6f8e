-- ===== src/Worker/Rotation.antt =====
-- The loop of main and client in cmd/worker/main.go: which server the next stream is opened on.
use native.Mathlib.Nat.{mod-lt, mod-eq_of_lt, mod-add-mod, add-mod_right}
use distq_go.Common.{
  ℕ, zero, suc, ◌+◌, ◌-◌, ◌%◌, ◌<◌, ◌≡◌, sym, ap, ◌∙◌, Bool, true, Option, none, some, List, [],
  ◌∷◌, if◌then◌else◌, get_elem?, arith, inl, inr, leb, Bool-cases,
}

-- `w.conns[w.next%len(w.conns)]`: `none` is the panic of a division by zero.
unfoldable pub client : (servers next : ℕ) → Option ℕ
client zero next = none
client (suc n) next = some (next % suc n)

-- The servers that main tries, one for each stream: `broke` says that a stream ended with an error
-- while the worker was to go on, and only then the next one is opened on the following server.
unfoldable pub tried : (servers next : ℕ) → (broke : List Bool) → List (Option ℕ)
tried servers next [] = []
tried servers next (broke ∷ streams) =
    client servers next ∷ tried servers (if broke then suc next else next) streams

abbrev pub failures : ℕ → List Bool
failures zero = []
failures (suc n) = true ∷ failures n

tried-failures :
    (servers next k m : ℕ)
    → m < k
    → get_elem? (tried servers next (failures k)) m ≡ some (client servers (next + m))
unfolding tried
tried-failures servers next zero m h = absurd (omega arith)
tried-failures servers next (suc k) zero h = ground arith
tried-failures servers next (suc k) (suc m) h =
    ground (arith, tried-failures servers (suc next) k m)

-- How many failures away from `next` the server `i` is.
abbrev pub away : (servers next i : ℕ) → ℕ
away servers next i =
    if leb (next % servers) i then i - next % servers else i + servers - next % servers

pub away_reaches :
    (n next i : ℕ)
    → i < suc n
    → (away (suc n) next i < suc n) × ((next + away (suc n) next i) % suc n ≡ i)
away_reaches n next i h =
    let small : next % suc n < suc n = mod-lt next (omega arith) in
    elim (Bool-cases (leb (next % suc n) i)) [
      | inl ahead ↦
          let sum : next % suc n + (i - next % suc n) ≡ i = ground arith in
          (
            ground arith,
            rw ahead (
                sym (mod-add-mod next (suc n) (i - next % suc n))
                ∙ ap (λ x. x % suc n) sum
                ∙ mod-eq_of_lt h),
          )
      | inr behind ↦
          let sum : next % suc n + (i + suc n - next % suc n) ≡ i + suc n = ground arith in
          (
            ground arith,
            rw behind (
                sym (mod-add-mod next (suc n) (i + suc n - next % suc n))
                ∙ ap (λ x. x % suc n) sum
                ∙ add-mod_right i (suc n)
                ∙ mod-eq_of_lt h),
          )
    ]

-- Where no stream lasts, a worker comes to every server that it knows, from wherever it starts,
-- within as many streams as there are servers.
every_server_tried :
    (servers next i : ℕ)
    → i < servers
    → (m : ℕ) × (m < servers)
      × (get_elem? (tried servers next (failures servers)) m ≡ some (some i))
unfolding client
every_server_tried zero next i h = absurd (omega arith)
every_server_tried (suc n) next i h =
    let (near, there) = away_reaches n next i h in
    (
      away (suc n) next i,
      near,
      ground (arith, tried-failures (suc n) next (suc n) (away (suc n) next i), there),
    )
