-- ===== src/Server/Leadership.antt =====
-- internal/server/leadership.go: the state of a node's leadership and its loop Run. A context is a
-- number, and the contexts that were cancelled are a set; the election is the environment's, which
-- says how each round of the loop ends.
pub mod Reign
use distq_go.Common.{
  ℕ, suc, ◌+◌, Bool, true, false, Option, none, some, List, [], ◌∷◌, if◌then◌else◌, leb, ltb,
}
use Prim.Native.Nat.{compare, Ordering}

pub record Leadership : Type 0 where
  pub is_lead : Bool
  pub term : ℕ
  pub lead_ctx : ℕ
  pub cancel : Option ℕ
  pub cancelled : ℕ → Bool
  pub fresh : ℕ

abbrev same_ctx : ℕ → ℕ → Bool
same_ctx a b = elim (compare a b) [ Ordering.eq ↦ true | _ ↦ false ]

abbrev pub cancel_ctx : ℕ → (ℕ → Bool) → ℕ → Bool
cancel_ctx c set k = if same_ctx c k then true else set k

-- leadCtx begins cancelled: context 0.
unfoldable pub new_leadership : Leadership
new_leadership = record {
  is_lead = false;
  term = 0;
  lead_ctx = 0;
  cancel = none;
  cancelled = cancel_ctx 0 (λ k. false);
  fresh = 1;
}

unfoldable pub become_lead : ℕ → Leadership → Leadership
become_lead term l = record l {
  is_lead = true;
  term = term;
  lead_ctx = l.fresh;
  cancel = some l.fresh;
  fresh = suc l.fresh;
}

abbrev call_cancel : Option ℕ → (ℕ → Bool) → ℕ → Bool
call_cancel none set = set
call_cancel (some c) set = cancel_ctx c set

unfoldable pub demote : Leadership → Leadership
demote l = record l { is_lead = false; cancel = none; cancelled = call_cancel l.cancel l.cancelled }

-- Leading(), Term() and whether LeadCtx() is done.
abbrev pub leading : Leadership → Bool
leading l = l.is_lead

abbrev pub current_term : Leadership → ℕ
current_term l = l.term

abbrev pub reign_is_over : Leadership → Bool
reign_is_over l = l.cancelled l.lead_ctx

-- The node after it stopped, and whether it called the election's Resign.
unfoldable pub resign : Leadership → Leadership × Bool
resign l = (demote l, l.is_lead)

-- One round of Run: Campaign failed because the context ended; or it won a term, and Hold then
-- reported that leadership was lost, or that the context ended.
pub data Round : Type 0 where
  gave_up : Round
  lost shut_down : (term : ℕ) → Round

-- The rounds until the context ends; the deferred resign runs on every way out.
unfoldable pub run : List Round → Leadership → Leadership × Bool
run [] l = resign l
run (gave_up ∷ rounds) l = resign l
run (shut_down term ∷ rounds) l = resign (become_lead term l)
run (lost term ∷ rounds) l = run rounds (demote (become_lead term l))
