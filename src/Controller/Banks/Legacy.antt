-- ===== src/Controller/Banks/Legacy.antt =====
-- The transitions of a controller without a standard against those of the tables.
use hbmsim.Prelude.{
  ℕ, zero, suc, ◌≡◌, refl, ap, arith, Bool, true, false, Option, none, some, List, [], ◌∷◌, Result,
  ok, err, ◌>>=◌,
}
use hbmsim.Dram.Command.{HbmCommand, read_auto, write_auto, count}
use hbmsim.Dram.Standard.{HbmBankState, HbmStandard, apply_transition}
use hbmsim.Dram.Profiles.{hbm3_prerequisites, hbm3_transitions, rfm_support}
use hbmsim.Dram.Progress.{new_tables}
use hbmsim.Controller.Banks.{change_all, change_bank, apply_to_banks}

abbrev pub rows_of : List HbmBankState → List (Option ℕ)
rows_of [] = []
rows_of (b ∷ banks) = b.open_row ∷ rows_of banks

-- The open rows that a change leaves, or its exception.
abbrev pub open_rows : Result (List HbmBankState) → Result (List (Option ℕ))
open_rows (ok banks) = ok (rows_of banks)
open_rows (err e) = err e

open_rows-cons :
    (b c : HbmBankState) (r s : Result (List HbmBankState))
    → b.open_row ≡ c.open_row
    → open_rows r ≡ open_rows s
    → open_rows (r >>= λ rest. ok (b ∷ rest)) ≡ open_rows (s >>= λ rest. ok (c ∷ rest))
open_rows-cons b c (ok r) (ok s) h e = ground arith
open_rows-cons b c (ok r) (err s) h e = cc
open_rows-cons b c (err r) (ok s) h e = cc
open_rows-cons b c (err r) (err s) h e = cc

-- Two changes that leave the same row in every bank.
module _ (f g : HbmBankState → HbmBankState)
    (same : (b : HbmBankState) → (f b).open_row ≡ (g b).open_row) where
  open_rows-change_all :
      (banks : List HbmBankState)
      → open_rows (change_all (λ b. ok (f b)) banks) ≡ open_rows (change_all (λ b. ok (g b)) banks)
  open_rows-change_all [] = refl
  open_rows-change_all (b ∷ banks) =
      open_rows-cons (f b) (g b) (change_all (λ b. ok (f b)) banks)
        (change_all (λ b. ok (g b)) banks) (same b) (open_rows-change_all banks)

  open_rows-change_bank :
      (index : ℕ) (banks : List HbmBankState)
      → open_rows (change_bank (λ b. ok (f b)) index banks)
        ≡ open_rows (change_bank (λ b. ok (g b)) index banks)
  open_rows-change_bank index [] = refl
  open_rows-change_bank zero (b ∷ banks) = ap (λ r. ok (r ∷ rows_of banks)) (same b)
  open_rows-change_bank (suc index) (b ∷ banks) =
      open_rows-cons b b (change_bank (λ b. ok (f b)) index banks)
        (change_bank (λ b. ok (g b)) index banks) refl (open_rows-change_bank index banks)

-- All commands but the auto-precharging ones and `Count`.
abbrev pub is_legacy : HbmCommand → Bool
is_legacy read_auto = false
is_legacy write_auto = false
is_legacy count = false
is_legacy c = true

legacy-new_tables :
    (s : HbmStandard) (c : HbmCommand) (row index : ℕ) (banks : List HbmBankState)
    → is_legacy c ≡ true
    → open_rows (apply_to_banks none c row index banks)
      ≡ open_rows (apply_to_banks (some (new_tables s)) c row index banks)
unfolding apply_to_banks apply_transition
legacy-new_tables s HbmCommand.act row index banks h =
    open_rows-change_bank _ _ (λ b. refl) index banks
legacy-new_tables s HbmCommand.pre_bank row index banks h =
    open_rows-change_bank _ _ (λ b. refl) index banks
legacy-new_tables s HbmCommand.pre_all row index banks h =
    open_rows-change_all _ _ (λ b. refl) banks
legacy-new_tables s HbmCommand.read row index banks h =
    open_rows-change_bank _ _ (λ b. refl) index banks
legacy-new_tables s HbmCommand.write row index banks h =
    open_rows-change_bank _ _ (λ b. refl) index banks
legacy-new_tables s read_auto row index banks h = cc
legacy-new_tables s write_auto row index banks h = cc
legacy-new_tables s HbmCommand.refresh_all_bank row index banks h =
    open_rows-change_all _ _ (λ b. refl) banks
legacy-new_tables s HbmCommand.refresh_per_bank row index banks h =
    open_rows-change_bank _ _ (λ b. refl) index banks
legacy-new_tables s HbmCommand.rfm_all_bank row index banks h =
    open_rows-change_all _ _ (λ b. refl) banks
legacy-new_tables s HbmCommand.rfm_per_bank row index banks h =
    open_rows-change_bank _ _ (λ b. refl) index banks
legacy-new_tables s count row index banks h = cc

-- After every command but an auto-precharging read or write (and `Count`, which is no command), a
-- controller without a standard leaves the same rows open in all banks, or the same exception, as one
-- with the tables of HBM3 and HBM4.
pub apply_to_banks-legacy :
    (s : HbmStandard) (c : HbmCommand) (row index : ℕ) (banks : List HbmBankState)
    → s.prerequisites ≡ hbm3_prerequisites
    → s.transitions ≡ hbm3_transitions
    → s.supports ≡ rfm_support
    → is_legacy c ≡ true
    → open_rows (apply_to_banks none c row index banks)
      ≡ open_rows (apply_to_banks (some s) c row index banks)
apply_to_banks-legacy s c row index banks p t u h =
    let e : s ≡ new_tables s =
      λ i. record s { prerequisites = p i; transitions = t i; supports = u i } in
    rw e (legacy-new_tables s c row index banks h)
