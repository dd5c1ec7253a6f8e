-- ===== src/Config/Items.antt =====
-- internal/config/config.go: what the list-valued settings come to.
use distq_go.Common.{
  ℕ, ◌≡◌, ◌≢◌, refl, inl, inr, ◌⊎◌, Bool, true, false, ◌&&◌, none, some, List, [], ◌∷◌,
  if◌then◌else◌, arith, Bool-cases,
}
use distq_go.Config.{
  Text, is_comma, is_space, is_empty, before_first, split, trim_left, trim_right, trim_space, items,
  split_list, Environment, first, server_addr, default_server_addr,
}

-- Nothing but spaces, or nothing but spaces and commas.
abbrev pub is_blank : Text → Bool
is_blank [] = true
is_blank (c ∷ cs) = is_space c && is_blank cs

abbrev pub is_vacant : Text → Bool
is_vacant [] = true
is_vacant (c ∷ cs) = (if is_comma c then true else is_space c) && is_vacant cs

abbrev are_blank : List Text → Bool
are_blank [] = true
are_blank (t ∷ ts) = is_blank t && are_blank ts

are_blank-before_first :
    (c : ℕ) (ts : List Text) → are_blank (before_first c ts) ≡ (is_space c && are_blank ts)
are_blank-before_first c [] = ground arith
are_blank-before_first c (t ∷ ts) = ground arith

are_blank-split : (v : Text) → are_blank (split v) ≡ is_vacant v
unfolding split
are_blank-split [] = refl
are_blank-split (c ∷ cs) = ground (arith, are_blank-split cs, are_blank-before_first c (split cs))

trim_right-keeps : (c : ℕ) (cs : Text) → is_space c ≡ false → is_empty (trim_right (c ∷ cs)) ≡ false
unfolding trim_right
trim_right-keeps c cs h = ground arith

is_empty-trim_space : (t : Text) → is_empty (trim_space t) ≡ is_blank t
unfolding trim_left
is_empty-trim_space [] = unfold trim_right in refl
is_empty-trim_space (c ∷ cs) = elim (Bool-cases (is_space c)) [
  | inl h ↦ rw h (is_empty-trim_space cs)
  | inr h ↦ rw h (trim_right-keeps c cs h)
]

none_left : (ts : List Text) → are_blank ts ≡ true → items ts ≡ []
unfolding items
none_left [] h = refl
none_left (t ∷ ts) h = ground (arith, is_empty-trim_space t, none_left ts)

one_left : (ts : List Text) → are_blank ts ≡ false → items ts ≢ []
unfolding items
one_left [] h = ground arith
one_left (t ∷ ts) h = ground (arith, is_empty-trim_space t, one_left ts)

-- A list of parts is all blank, and then it has no first item, or it has one.
first_of_parts :
    (ts : List Text)
    → ((are_blank ts ≡ true) × (first (items ts) ≡ none))
      ⊎ ((are_blank ts ≡ false) × ((a : Text) × (first (items ts) ≡ some a)))
first_of_parts ts = elim (Bool-cases (are_blank ts)) [
  | inl h ↦ inl (h, rw (none_left ts h))
  | inr h ↦ inr (h, head (items ts) (one_left ts h))
]
  where
    head : (xs : List Text) → xs ≢ [] → (a : Text) × (first xs ≡ some a)
    head [] ne = absurd (ne refl)
    head (a ∷ xs) ne = (a, refl)

first_of :
    (v : Text)
    → ((is_vacant v ≡ true) × (first (split_list v) ≡ none))
      ⊎ ((is_vacant v ≡ false) × ((a : Text) × (first (split_list v) ≡ some a)))
first_of v = rw (are_blank-split v) at (first_of_parts (split v))

default_is_not_vacant : is_vacant default_server_addr ≡ false
unfolding is_space
default_is_not_vacant = refl

default_is_found : (a : Text) × (first (split_list default_server_addr) ≡ some a)
default_is_found = elim (first_of default_server_addr) [
  | inl (vacant, e) ↦ absurd (ground (arith, default_is_not_vacant, vacant))
  | inr (filled, found) ↦ found
]

-- ServerAddr panics exactly for a setting that is not empty and holds nothing but commas and spaces;
-- for every other environment it returns an address.
pub server_addr_panics :
    (env : Environment)
    → ((is_empty (env "DISTQ_SERVER_ADDR") ≡ false)
        × (is_vacant (env "DISTQ_SERVER_ADDR") ≡ true)
        × (server_addr env ≡ none))
      ⊎ (((is_empty (env "DISTQ_SERVER_ADDR") ≡ true)
            ⊎ (is_vacant (env "DISTQ_SERVER_ADDR") ≡ false))
          × ((a : Text) × (server_addr env ≡ some a)))
server_addr_panics env = elim (Bool-cases (is_empty (env "DISTQ_SERVER_ADDR"))) [
  | inl h ↦ inr (inl h, rw h default_is_found)
  | inr h ↦ elim (first_of (env "DISTQ_SERVER_ADDR")) [
    | inl (vacant, e) ↦ inl (h, vacant, rw h e)
    | inr (filled, found) ↦ inr (inr filled, rw h found)
  ]
]
