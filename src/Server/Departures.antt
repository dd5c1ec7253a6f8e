-- ===== src/Server/Departures.antt =====
-- forget of internal/server/dispatcher.go: who is left in the line after a worker has left it.
use distq_go.Common.{
  ◌≡◌, ◌≢◌, ◌∙◌, refl, subst, inl, inr, String, false, List, [], ◌∷◌, ◌==◌, eq_iff, arith, All,
  Bool-cases,
}
use distq_go.Server.Dispatcher.{Waiter, leave_line, is_in_line}
use distq_go.Server.Line.{Distinct}

-- Leaving the line by a worker's name takes that worker out, and nobody else.
pub leave_line-absent :
    (id : String) (ws : List Waiter) → Distinct ws → is_in_line id (leave_line id ws) ≡ false
unfolding is_in_line leave_line
leave_line-absent id [] d = refl
leave_line-absent id (w ∷ ws) d = ground (arith, eq_iff w.worker_id id, leave_line-absent id ws d.1)

pub leave_line-others :
    (id other : String) (ws : List Waiter)
    → other ≢ id
    → is_in_line other (leave_line id ws) ≡ is_in_line other ws
unfolding is_in_line leave_line
leave_line-others id other [] ne = refl
leave_line-others id other (w ∷ ws) ne =
    ground
      (arith, eq_iff w.worker_id id, eq_iff w.worker_id other, leave_line-others id other ws ne)

-- Who is left after a worker has left.
pub leave_line-All {ℓ} :
    (P : Waiter → Type ℓ) (id : String) (ws : List Waiter) → All P ws → All P (leave_line id ws)
unfolding leave_line
leave_line-All P id [] h = h
leave_line-All P id (w ∷ ws) h = elim (Bool-cases (w.worker_id == id)) [
  | inl own ↦ rw own h.1
  | inr other ↦ rw other (h.0, leave_line-All P id ws h.1)
]

pub absent-ne :
    (id : String) (ws : List Waiter) → is_in_line id ws ≡ false → All (λ w. w.worker_id ≢ id) ws
unfolding is_in_line
absent-ne id [] h = tt
absent-ne id (w ∷ ws) h = (
  (λ e. absurd (ground (arith, h, e, eq_iff w.worker_id id))),
  absent-ne id ws (ground (arith, h, eq_iff w.worker_id id)),
)

pub leave_line-ne :
    (id : String) (ws : List Waiter) → Distinct ws → All (λ w. w.worker_id ≢ id) (leave_line id ws)
unfolding leave_line
leave_line-ne id [] d = tt
leave_line-ne id (w ∷ ws) d = elim (Bool-cases (w.worker_id == id)) [
  | inl own ↦ rw own (
      subst (λ n. All (λ x. x.worker_id ≢ n) ws) ((eq_iff w.worker_id id).0 own)
        (absent-ne w.worker_id ws d.0))
  | inr other ↦
      rw other
        ((λ e. absurd (ground (arith, other, e, eq_iff w.worker_id id))), leave_line-ne id ws d.1)
]

pub leave_line-Distinct :
    (id : String) (ws : List Waiter) → Distinct ws → Distinct (leave_line id ws)
unfolding leave_line
leave_line-Distinct id [] d = tt
leave_line-Distinct id (w ∷ ws) d = elim (Bool-cases (w.worker_id == id)) [
  | inl own ↦ rw own d.1
  | inr other ↦ rw other (
    leave_line-others id w.worker_id ws
          (λ e. absurd (ground (arith, other, e, eq_iff w.worker_id id)))
        ∙ d.0,
    leave_line-Distinct id ws d.1,
  )
]
