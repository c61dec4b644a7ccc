-- ===== src/Softpll/Ptracker.antt =====
-- The phase trackers of softpll/spll_ptracker.c. The file's `tag_ref`, which all trackers share, is
-- an argument. `n_avg` is positive in every use.
pub mod Average
use wrpc_sw.Prelude.{
  ℕ, zero, suc, ◌+◌, ◌-◌, ◌*◌, ◌/◌, ◌%◌, ◌^◌, ◌≤◌, ◌<◌, min, bit_and, bit_or, ◌≡◌, refl, sym, ap,
  ◌∙◌, ◌≢◌, ◌↔◌, ◌⊎◌, inl, inr, Bool, true, false, not, ◌&&◌, ◌||◌, Option, none, some, List, [],
  ◌∷◌, ◌++◌, map, arith, length, get_or, set, get_elem?, ltb, leb, ◌==◌, if◌then◌else◌, Bool-cases,
  Option-cases, dec_lt, dec_le,
}
use wrpc_sw.Prelude.Int.{
  ℤ, pos, negsuc, pos_part, neg_part, ◌+ℤ◌, ◌-ℤ◌, ◌*ℤ◌, ◌≤ℤ◌, ◌<ℤ◌, ltb_ℤ, leb_ℤ, eqb_ℤ, i32, i64,
  sar, tdiv, neg, low_bits, Fits32, i32_of_Fits32, +ℤ_parts, -ℤ_parts, eq_of_parts, parts_of_eq,
  word_laws,
}
use wrpc_sw.Softpll.Config.{hpll_n, reverse_spll}
use wrpc_sw.Softpll.Regs.{Regs, spll_enable_tagger, spll_debug}

pub record Ptracker : Type 0 where
  pub enabled : Bool
  pub id : ℕ
  pub n_avg : ℤ
  pub acc : ℤ
  pub avg_count : ℤ
  pub preserve_sign : ℕ
  pub phase_val : ℤ
  pub ready : Bool
  pub dbg_channel : ℤ

unfoldable pub ptracker_init : Ptracker → ℕ → ℤ → Ptracker
ptracker_init s id num_avgs = record s {
  id = id;
  ready = false;
  n_avg = num_avgs;
  acc = pos 0;
  avg_count = pos 0;
  enabled = false;
  dbg_channel = negsuc 0;
}

unfoldable pub ptracker_start : Ptracker → Regs → Ptracker × Regs
ptracker_start s r = (
  record s { preserve_sign = 0; enabled = true; ready = false; acc = pos 0; avg_count = pos 0 },
  spll_enable_tagger r.n_chan_ref true (spll_enable_tagger s.id true r),
)

-- `adj_tab`, as far as it is read: the quarter of the sample, and the quarter of the first sample
-- of the bin times 4.
unfoldable pub adj_tab : ℕ → ℤ
adj_tab i = if i == 3 then negsuc (2 ^ hpll_n - 1) else if i == 12 then pos (2 ^ hpll_n) else pos 0

unfoldable pub tracker_delta : ℤ → ℤ → ℕ
tracker_delta tag_ref tag =
    low_bits hpll_n (if not reverse_spll then i32 (tag_ref -ℤ tag) else i32 (tag -ℤ tag_ref))

-- One sample of an enabled tracker, averaged into its bin.
unfoldable pub tracker_sample : Ptracker → ℕ → Ptracker
tracker_sample s delta =
    let index = delta / 2 ^ (hpll_n - 2) in
    let acc = i32 (s.acc +ℤ i32 (pos delta +ℤ adj_tab (index + s.preserve_sign))) in
    let count = i32 (s.avg_count +ℤ pos 1) in
    if eqb_ℤ s.avg_count (pos 0)
    then record s { preserve_sign = index * 4; acc = pos delta; avg_count = count }
    else if eqb_ℤ count s.n_avg
    then record s { phase_val = tdiv acc s.n_avg; ready = true; acc = pos 0; avg_count = pos 0 }
    else record s { acc = acc; avg_count = count }

unfoldable pub ptracker_update : Ptracker → ℤ → ℤ → Regs → Ptracker × Regs
ptracker_update s tag_ref tag r = if not s.enabled then (s, r) else (
  tracker_sample s (tracker_delta tag_ref tag),
  if leb_ℤ (pos 0) s.dbg_channel
      then spll_debug (3 + low_bits 2 s.dbg_channel) 1 (i32 (tag_ref -ℤ tag)) true r
      else r,
)

-- The tracker that a tag is for, updated in place; no tracker, no change.
unfoldable pub update_at : List Ptracker → ℕ → ℤ → ℤ → Regs → List Ptracker × Regs
update_at [] source tag_ref tag r = ([], r)
update_at (p ∷ ps) zero tag_ref tag r =
    let (p', r') = ptracker_update p tag_ref tag r in (p' ∷ ps, r')
update_at (p ∷ ps) (suc source) tag_ref tag r =
    let (ps', r') = update_at ps source tag_ref tag r in (p ∷ ps', r')

-- The trackers, the shared reference tag and the registers after a tag.
unfoldable pub ptrackers_update : List Ptracker → ℤ → ℤ → ℕ → Regs → List Ptracker × ℤ × Regs
ptrackers_update ps tag_ref tag source r =
    if source == r.n_chan_ref
    then (ps, tag, r)
    else let (ps', r') = update_at ps source tag_ref tag r in (ps', tag_ref, r')
