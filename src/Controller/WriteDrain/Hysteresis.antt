-- ===== src/Controller/WriteDrain/Hysteresis.antt =====
-- The mode changes at the watermarks only.
use hbmsim.Prelude.{
  ℕ, ◌<◌, ◌≡◌, ◌≤◌, ◌⊎◌, ◌∙◌, ap, refl, arith, true, false, List, [], ◌∷◌, ◌++◌, All, All-imp,
}
use hbmsim.Controller.WriteDrain.{WriteDrain, update_write_drain, drain_after}

abbrev pub Between : WriteDrain → ℕ → Type 0
Between d size = (d.write_drain_low_watermark < size) × (size < d.write_drain_high_watermark)

update_write_drain-Between :
    (d : WriteDrain) (size : ℕ) → Between d size → update_write_drain d size ≡ d
unfolding update_write_drain
update_write_drain-Between d size b = ground arith

-- While the length of the write queue moves strictly between the watermarks, the controller stays in
-- its mode, whichever it is.
pub drain_after-Between :
    (d : WriteDrain) (sizes : List ℕ) → All (Between d) sizes → drain_after d sizes ≡ d
unfolding drain_after
drain_after-Between d [] b = refl
drain_after-Between d (size ∷ sizes) b =
    ap (λ e. drain_after e sizes) (update_write_drain-Between d size b.0)
    ∙ drain_after-Between d sizes b.1

drain_after-append :
    (d : WriteDrain) (before after : List ℕ)
    → drain_after d (before ++ after) ≡ drain_after (drain_after d before) after
unfolding drain_after
drain_after-append d [] after = refl
drain_after-append d (size ∷ before) after =
    drain_after-append (update_write_drain d size) before after

update_write_drain-watermarks :
    (d : WriteDrain) (size : ℕ)
    → ((update_write_drain d size).write_drain_low_watermark ≡ d.write_drain_low_watermark)
      × ((update_write_drain d size).write_drain_high_watermark ≡ d.write_drain_high_watermark)
unfolding update_write_drain
update_write_drain-watermarks d size = ground arith

drain_after-watermarks :
    (d : WriteDrain) (sizes : List ℕ)
    → ((drain_after d sizes).write_drain_low_watermark ≡ d.write_drain_low_watermark)
      × ((drain_after d sizes).write_drain_high_watermark ≡ d.write_drain_high_watermark)
unfolding drain_after
drain_after-watermarks d [] = (refl, refl)
drain_after-watermarks d (size ∷ sizes) =
    let one = update_write_drain-watermarks d size in
    let rest = drain_after-watermarks (update_write_drain d size) sizes in
    (rest.0 ∙ one.0, rest.1 ∙ one.1)

update_write_drain-decides :
    (d : WriteDrain) (size : ℕ)
    → d.write_drain_low_watermark < d.write_drain_high_watermark
    → (size ≤ d.write_drain_low_watermark) ⊎ (d.write_drain_high_watermark ≤ size)
    → ((size ≤ d.write_drain_low_watermark) × ((update_write_drain d size).draining_writes ≡ false))
      ⊎ ((d.write_drain_high_watermark ≤ size)
          × ((update_write_drain d size).draining_writes ≡ true))
unfolding update_write_drain
update_write_drain-decides d size l o = ground arith

drain_after_cons :
    (d : WriteDrain) (size : ℕ) (sizes : List ℕ)
    → drain_after d (size ∷ sizes) ≡ drain_after (update_write_drain d size) sizes
unfolding drain_after
drain_after_cons d size sizes = refl

-- With the low watermark below the high one, the mode is what the last length at or beyond a watermark
-- says, whatever the lengths before it were and however the length moved strictly between the
-- watermarks since: the controller does not drain its writes if that length was at most the low
-- watermark, and drains them if it was at least the high one.
pub drain_after-decides :
    (d : WriteDrain) (before after : List ℕ) (size : ℕ)
    → d.write_drain_low_watermark < d.write_drain_high_watermark
    → (size ≤ d.write_drain_low_watermark) ⊎ (d.write_drain_high_watermark ≤ size)
    → All (Between d) after
    → ((size ≤ d.write_drain_low_watermark)
        × ((drain_after d (before ++ size ∷ after)).draining_writes ≡ false))
      ⊎ ((d.write_drain_high_watermark ≤ size)
          × ((drain_after d (before ++ size ∷ after)).draining_writes ≡ true))
drain_after-decides d before after size l o b =
    let e = drain_after d before in
    let w = drain_after-watermarks d before in
    let u = update_write_drain-watermarks e size in
    let f = update_write_drain e size in
    let b' : All (Between f) after =
      All-imp (Between d) (Between f) (λ n k. omega (arith, k, w, u)) after b in
    let last : drain_after d (before ++ size ∷ after) ≡ f =
      drain_after-append d before (size ∷ after)
      ∙ drain_after_cons e size after
      ∙ drain_after-Between f after b' in
    let k = update_write_drain-decides e size (omega (arith, w, l)) (rw (w.0, w.1) o) in
    rw last (ground (arith, k, w))
