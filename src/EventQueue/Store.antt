-- ===== src/EventQueue/Store.antt =====
-- The two maps of the event queue: events by key, in key order, and keys by token.
use hbmsim.Prelude.{
  ℕ, ◌<◌, ◌≡◌, refl, Bool, ◌&&◌, ◌||◌, ◌⊎◌, Option, none, some, List, [], ◌∷◌, arith, ltb, ◌==◌,
  if◌then◌else◌, All,
}

-- `std::pair<SimTime, std::uint64_t>`
pub record Key : Type 0 where
  pub at : ℕ
  pub order : ℕ

abbrev pub key : ℕ → ℕ → Key
key at order = record { at = at; order = order }

-- `std::pair` compares its components in turn.
abbrev pub key_ltb : Key → Key → Bool
key_ltb a b = ltb a.at b.at || (a.at == b.at && ltb a.order b.order)

abbrev pub key_eqb : Key → Key → Bool
key_eqb a b = a.at == b.at && a.order == b.order

abbrev pub Before : Key → Key → Type 0
Before a b = (a.at < b.at) ⊎ ((a.at ≡ b.at) × (a.order < b.order))

module _ {ℓ} {V : Type ℓ} where
  -- `emplace` on an ordered map: a key that is there keeps its value.
  unfoldable pub emplace : Key → V → List (Key × V) → List (Key × V)
  emplace k v [] = (k, v) ∷ []
  emplace k v ((j, w) ∷ m) =
      if key_ltb k j
      then (k, v) ∷ (j, w) ∷ m
      else (j, w) ∷ (if key_ltb j k then emplace k v m else m)

  unfoldable pub erase : Key → List (Key × V) → List (Key × V)
  erase k [] = []
  erase k ((j, w) ∷ m) = if key_eqb j k then m else (j, w) ∷ erase k m

  unfoldable pub lookup : Key → List (Key × V) → Option V
  lookup k [] = none
  lookup k ((j, w) ∷ m) = if key_eqb j k then some w else lookup k m

  -- Every key of the list comes after `k`, and the list is in key order.
  abbrev pub After : Key → List (Key × V) → Type 0
  After k [] = Unit
  After k ((j, w) ∷ m) = Before k j × After k m

  abbrev pub IsOrdered : List (Key × V) → Type 0
  IsOrdered [] = Unit
  IsOrdered ((j, w) ∷ m) = After j m × IsOrdered m

unfoldable pub emplace_token : ℕ → Key → List (ℕ × Key) → List (ℕ × Key)
emplace_token t k [] = (t, k) ∷ []
emplace_token t k ((s, j) ∷ m) = (s, j) ∷ (if s == t then m else emplace_token t k m)

unfoldable pub find_token : ℕ → List (ℕ × Key) → Option Key
find_token t [] = none
find_token t ((s, j) ∷ m) = if s == t then some j else find_token t m

-- An unordered map holds a key at most once, so this takes out that one entry.
unfoldable pub erase_token : ℕ → List (ℕ × Key) → List (ℕ × Key)
erase_token t [] = []
erase_token t ((s, j) ∷ m) = if s == t then erase_token t m else (s, j) ∷ erase_token t m

module _ {ℓ} {V : Type ℓ} where
  pub After-trans : (k j : Key) (m : List (Key × V)) → Before k j → After j m → After k m
  After-trans k j [] h a = tt
  After-trans k j ((i, w) ∷ m) h a = (ground arith, After-trans k j m h a.1)

  pub emplace-After :
      (i k : Key) (v : V) (m : List (Key × V)) → Before i k → After i m → After i (emplace k v m)
  unfolding emplace
  emplace-After i k v [] h a = (h, tt)
  emplace-After i k v ((j, w) ∷ m) h a = ground (arith, emplace-After i k v m h a.1)

  pub emplace-IsOrdered :
      (k : Key) (v : V) (m : List (Key × V)) → IsOrdered m → IsOrdered (emplace k v m)
  unfolding emplace
  emplace-IsOrdered k v [] o = (tt, tt)
  emplace-IsOrdered k v ((j, w) ∷ m) o =
      ground (arith, emplace-IsOrdered k v m o.1, emplace-After j k v m, After-trans k j m)

  pub erase-After : (i k : Key) (m : List (Key × V)) → After i m → After i (erase k m)
  unfolding erase
  erase-After i k [] a = tt
  erase-After i k ((j, w) ∷ m) a = ground (arith, erase-After i k m a.1)

  pub erase-IsOrdered : (k : Key) (m : List (Key × V)) → IsOrdered m → IsOrdered (erase k m)
  unfolding erase
  erase-IsOrdered k [] o = tt
  erase-IsOrdered k ((j, w) ∷ m) o = ground (arith, erase-IsOrdered k m o.1, erase-After j k m o.0)

  pub lookup-After : (k : Key) (m : List (Key × V)) → After k m → lookup k m ≡ none
  unfolding lookup
  lookup-After k [] a = refl
  lookup-After k ((j, w) ∷ m) a = ground (arith, lookup-After k m a.1)

  -- What a list finds comes after everything that the whole list comes after.
  pub lookup-Before :
      (k i : Key) (v : V) (m : List (Key × V)) → After k m → lookup i m ≡ some v → Before k i
  unfolding lookup
  lookup-Before k i v [] a e = cc
  lookup-Before k i v ((j, w) ∷ m) a e = ground (arith, lookup-Before k i v m a.1)

  -- What holds of all that a lookup finds holds of the whole list.
  pub All-lookup :
      (P : V → Type 0) (m : List (Key × V))
      → IsOrdered m
      → ((k : Key) (v : V) → lookup k m ≡ some v → P v)
      → All (λ (entry : Key × V). P entry.1) m
  unfolding lookup
  All-lookup P [] o h = tt
  All-lookup P ((j, w) ∷ m) o h = (
    h j w (ground arith),
    All-lookup P m o.1 (λ k v e. h k v (ground (arith, lookup-Before j k v m o.0 e))),
  )

  pub erase-head : (k : Key) (v : V) (m : List (Key × V)) → erase k ((k, v) ∷ m) ≡ m
  unfolding erase
  erase-head k v m = ground arith

  -- A key that is not there yet.
  pub lookup-emplace :
      (i k : Key) (v : V) (m : List (Key × V))
      → IsOrdered m
      → lookup k m ≡ none
      → lookup i (emplace k v m) ≡ (if key_eqb k i then some v else lookup i m)
  unfolding lookup emplace
  lookup-emplace i k v [] o n = refl
  lookup-emplace i k v ((j, w) ∷ m) o n = ground (arith, lookup-emplace i k v m o.1)

  pub lookup-erase :
      (i k : Key) (m : List (Key × V))
      → IsOrdered m
      → lookup i (erase k m) ≡ (if key_eqb k i then none else lookup i m)
  unfolding lookup erase
  lookup-erase i k [] o = ground arith
  lookup-erase i k ((j, w) ∷ m) o = ground (arith, lookup-erase i k m o.1, lookup-After j m o.0)

pub find_token-emplace_token :
    (s t : ℕ) (k : Key) (m : List (ℕ × Key))
    → find_token t m ≡ none
    → find_token s (emplace_token t k m) ≡ (if t == s then some k else find_token s m)
unfolding find_token emplace_token
find_token-emplace_token s t k [] n = refl
find_token-emplace_token s t k ((r, j) ∷ m) n = ground (arith, find_token-emplace_token s t k m)

pub find_token-erase_token :
    (s t : ℕ) (m : List (ℕ × Key))
    → find_token s (erase_token t m) ≡ (if t == s then none else find_token s m)
unfolding find_token erase_token
find_token-erase_token s t [] = ground arith
find_token-erase_token s t ((r, j) ∷ m) = ground (arith, find_token-erase_token s t m)
