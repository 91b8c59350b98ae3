-- ===== src/Timing/Engine/Records.antt =====
-- What one call of `record` does to the times of a resource: lemmas on the keys and on the stored times.
use hbmsim.Prelude.{
  ℕ, zero, suc, ◌+◌, ◌-◌, ◌^◌, ◌≤◌, ◌<◌, ◌≡◌, ◌∙◌, refl, Bool, true, false, ◌&&◌, Option, some,
  List, [], ◌∷◌, ◌++◌, arith, if◌then◌else◌, ◌==◌, length, length-append, get_elem?, tail,
  bit_or-shifted,
}
use hbmsim.Dram.Command.{HbmCommand, command_eqb}
use hbmsim.Mapping.{HbmAddress}
use hbmsim.Timing.Spec.{TimingScope}
use hbmsim.Timing.Engine.{
  HbmTimingEngine, CommandHistory, timing_command, scope_index, resource_index, resource_key, back,
  push_time, entry, record_at, record_command,
}

-- The flat indices are 32-bit words.
pub record HasWords (a : HbmAddress) : Type 0 where
  pub bank_word : a.flat_bank < 2 ^ 32
  pub group_word : a.flat_bank_group < 2 ^ 32
  pub sid_word : a.flat_sid < 2 ^ 32
  pub pseudo_word : a.flat_pseudo_channel < 2 ^ 32
  pub channel_word : a.flat_channel < 2 ^ 32

resource_index-lt : (s : TimingScope) (a : HbmAddress) → HasWords a → resource_index s a < 2 ^ 32
unfolding resource_index
resource_index-lt s a w = ground arith

-- Different resources have different keys.
resource_key-eq :
    (s r : TimingScope) (a b : HbmAddress)
    → HasWords a
    → HasWords b
    → (resource_key s a == resource_key r b)
      ≡ (scope_index s == scope_index r && resource_index s a == resource_index r b)
unfolding resource_key
resource_key-eq s r a b v w =
    let x = resource_index-lt s a v in
    let y = resource_index-lt r b w in
    rw
      (
        bit_or-shifted 56 (scope_index s) (resource_index s a) (omega arith),
        bit_or-shifted 56 (scope_index r) (resource_index r b) (omega arith),
      )
      (ground arith)

get_elem?-append_left :
    (xs : List ℕ) (w i : ℕ) → i < length xs → get_elem? (xs ++ w ∷ []) i ≡ get_elem? xs i
get_elem?-append_left [] w i h = elim h [ ]
get_elem?-append_left (x ∷ xs) w zero h = refl
get_elem?-append_left (x ∷ xs) w (suc i) h = get_elem?-append_left xs w i (omega arith)

get_elem?-append_last : (xs : List ℕ) (w : ℕ) → get_elem? (xs ++ w ∷ []) (length xs) ≡ some w
get_elem?-append_last [] w = refl
get_elem?-append_last (x ∷ xs) w = get_elem?-append_last xs w

get_elem?-tail : (xs : List ℕ) (i : ℕ) → get_elem? (tail xs) i ≡ get_elem? xs (suc i)
get_elem?-tail [] i = refl
get_elem?-tail (x ∷ xs) i = refl

length-tail : (xs : List ℕ) → length (tail xs) ≡ length xs - 1
length-tail [] = refl
length-tail (x ∷ xs) = omega arith

back-append : (xs : List ℕ) (w d : ℕ) → 0 < d → back (suc d) (xs ++ w ∷ []) ≡ back d xs
back-append xs w d h =
    let f : length xs + 1 - suc d ≡ length xs - d = omega arith in
    rw (length-append xs (w ∷ []), f) (ground (arith, get_elem?-append_left xs w (length xs - d)))

back-append_one : (xs : List ℕ) (w : ℕ) → back 1 (xs ++ w ∷ []) ≡ some w
back-append_one xs w =
    let f : length xs + 1 - 1 ≡ length xs = omega arith in
    rw (length-append xs (w ∷ []), f) (ground (arith, get_elem?-append_last xs w))

back-tail : (xs : List ℕ) (d : ℕ) → 0 < d → d < length xs → back d (tail xs) ≡ back d xs
back-tail xs d z h =
    let f : suc (length xs - 1 - d) ≡ length xs - d = omega arith in
    rw (length-tail xs, get_elem?-tail xs (length xs - 1 - d), f) (ground arith)

pub length-push_time : (xs : List ℕ) (w : ℕ) → length xs ≤ 4 → length (push_time xs w) ≤ 4
unfolding push_time
length-push_time xs w h = ground (arith, length-append xs (w ∷ []), length-tail (xs ++ w ∷ []))

-- Dropping the fifth time does not touch the last four.
pub back-push_time :
    (xs : List ℕ) (w d : ℕ)
    → length xs ≤ 4
    → d < 4
    → back (suc d) (push_time xs w) ≡ (if d == 0 then some w else back d xs)
unfolding push_time
back-push_time xs w d h l = ground (
  arith,
  length-append xs (w ∷ []),
  back-tail (xs ++ w ∷ []) (suc d),
  back-append_one xs w,
  back-append xs w d,
)

entry-if :
    (m : Bool) (f : CommandHistory) (o : Option CommandHistory) (c : HbmCommand)
    → entry (if m then some f else o) c ≡ (if m then f c else entry o c)
entry-if true f o c = refl
entry-if false f o c = refl

if-and :
    (m n : Bool) (x y : List ℕ)
    → (if m then (if n then x else y) else y) ≡ (if m && n then x else y)
if-and true n x y = refl
if-and false n x y = refl

module _ (a b : HbmAddress) (v : HasWords a) (w : HasWords b) (command : HbmCommand) (when : ℕ)
    (c : HbmCommand) where
  entry-record_at :
      (s r : TimingScope) (h : ℕ → Option CommandHistory)
      → entry (record_at command b when h r (resource_key s a)) c ≡ (
          if (scope_index r == scope_index s && resource_index r b == resource_index s a)
            && command_eqb c command
          then push_time (entry (h (resource_key s a)) c) when
          else entry (h (resource_key s a)) c)
  unfolding record_at
  entry-record_at s r h = rw (resource_key-eq r s b a w v) (
      entry-if (scope_index r == scope_index s && resource_index r b == resource_index s a)
        (λ x.
          if command_eqb x command
          then push_time (entry (h (resource_key s a)) x) when
          else entry (h (resource_key s a)) x)
        (h (resource_key s a)) c
      ∙ if-and (scope_index r == scope_index s && resource_index r b == resource_index s a)
          (command_eqb c command) (push_time (entry (h (resource_key s a)) c) when)
          (entry (h (resource_key s a)) c))

  five :
      (s : TimingScope) (h : ℕ → Option CommandHistory)
      → let at = record_at command b when in
        let k = resource_key s a in
        let m = λ (r : TimingScope).
          (scope_index r == scope_index s && resource_index r b == resource_index s a)
          && command_eqb c command in
        let h1 = at h TimingScope.bank in
        let h2 = at h1 TimingScope.bank_group in
        let h3 = at h2 TimingScope.sid in
        let h4 = at h3 TimingScope.pseudo_channel in
        (entry (at h4 TimingScope.channel k) c
          ≡ (if m TimingScope.channel then push_time (entry (h4 k) c) when else entry (h4 k) c))
        × (entry (h4 k) c ≡ (
            if m TimingScope.pseudo_channel
            then push_time (entry (h3 k) c) when
            else entry (h3 k) c))
        × (entry (h3 k) c
            ≡ (if m TimingScope.sid then push_time (entry (h2 k) c) when else entry (h2 k) c))
        × (entry (h2 k) c ≡ (
            if m TimingScope.bank_group then push_time (entry (h1 k) c) when else entry (h1 k) c))
        × (entry (h1 k) c
            ≡ (if m TimingScope.bank then push_time (entry (h k) c) when else entry (h k) c))
  five s h =
      let at = record_at command b when in
      let h1 = at h TimingScope.bank in
      let h2 = at h1 TimingScope.bank_group in
      let h3 = at h2 TimingScope.sid in
      let h4 = at h3 TimingScope.pseudo_channel in
      (
        entry-record_at s TimingScope.channel h4,
        entry-record_at s TimingScope.pseudo_channel h3,
        entry-record_at s TimingScope.sid h2,
        entry-record_at s TimingScope.bank_group h1,
        entry-record_at s TimingScope.bank h,
      )

  -- Of the five updates of `record`, one is on the resource that is asked for.
  entry-records :
      (s : TimingScope) (h : ℕ → Option CommandHistory)
      → let at = record_at command b when in
        entry
          (at
            (at
              (at (at (at h TimingScope.bank) TimingScope.bank_group) TimingScope.sid)
              TimingScope.pseudo_channel)
            TimingScope.channel
            (resource_key s a))
          c
        ≡ (if resource_index s b == resource_index s a && command_eqb c command
            then push_time (entry (h (resource_key s a)) c) when
            else entry (h (resource_key s a)) c)
  entry-records TimingScope.bank h =
      let s = TimingScope.bank in
      let (e5, e4, e3, e2, e1) = five s h in rw (e5, e4, e3, e2, e1) refl
  entry-records TimingScope.bank_group h =
      let s = TimingScope.bank_group in
      let (e5, e4, e3, e2, e1) = five s h in rw (e5, e4, e3, e2, e1) refl
  entry-records TimingScope.sid h =
      let s = TimingScope.sid in let (e5, e4, e3, e2, e1) = five s h in rw (e5, e4, e3, e2, e1) refl
  entry-records TimingScope.pseudo_channel h =
      let s = TimingScope.pseudo_channel in
      let (e5, e4, e3, e2, e1) = five s h in rw (e5, e4, e3, e2, e1) refl
  entry-records TimingScope.channel h =
      let s = TimingScope.channel in
      let (e5, e4, e3, e2, e1) = five s h in rw (e5, e4, e3, e2, e1) refl

pub entry-record_command :
    (t : HbmTimingEngine) (s : TimingScope) (a b : HbmAddress) (command c : HbmCommand) (when : ℕ)
    → HasWords a
    → HasWords b
    → entry ((record_command t command b when).history (resource_key s a)) c ≡ (
        if resource_index s b == resource_index s a && command_eqb c (timing_command command)
        then push_time (entry (t.history (resource_key s a)) c) when
        else entry (t.history (resource_key s a)) c)
unfolding record_command
entry-record_command t s a b command c when v w =
    entry-records a b v w (timing_command command) when c s t.history
