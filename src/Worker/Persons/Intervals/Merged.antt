-- ===== src/Worker/Persons/Intervals/Merged.antt =====
-- _merge_intervals makes what _merge_time_patch makes with no gap.
use video_flow.Prelude.{
  ◌≡◌, refl, sym, ap, ◌∙◌, true, false, List, [], ◌∷◌, arith, ltb, All, Bool-cases, inl, inr,
}
use mathlib.Core.List.Permᴰ
use video_flow.Prelude.Sorting.{All-Permᴰ, sort, sort-Permᴰ}
use video_flow.Worker.TimePatch.{TimePatch, is_overlap}
use video_flow.Worker.Tracking.{joins, coalesce, coalesced, by_start}
use video_flow.Worker.Tracking.Patches.{
  IsPatch, IsMerged, extended, extended-IsPatch, coalesce_join, coalesce_part, sorted-IsMerged,
}
use video_flow.Worker.Persons.Intervals.{merge_next, merged, merge_intervals}

joins-zero :
    (last p : TimePatch)
    → IsPatch last
    → ltb last.end_time p.start_time ≡ false
    → joins 0 last p ≡ true
unfolding joins is_overlap
joins-zero last p h e = ground arith

parts-zero :
    (last p : TimePatch)
    → IsPatch last
    → ltb last.end_time p.start_time ≡ true
    → joins 0 last p ≡ false
unfolding joins is_overlap
parts-zero last p h e = ground arith

merge_next-coalesce :
    (last : TimePatch) (ps : List TimePatch)
    → IsPatch last
    → All IsPatch ps
    → merge_next last ps ≡ coalesce 0 last ps
unfolding merge_next coalesce extended
merge_next-coalesce last [] h k = refl
merge_next-coalesce last (p ∷ ps) h k = elim (Bool-cases (ltb last.end_time p.start_time)) [
  | inl e ↦
      rw (e, merge_next) (ap (λ r. last ∷ r) (merge_next-coalesce p ps k.0 k.1))
      ∙ sym (coalesce_part 0 last p ps (parts-zero last p h e))
  | inr e ↦
      rw (e, merge_next) (merge_next-coalesce (extended last p) ps (extended-IsPatch last p h) k.1)
      ∙ sym (coalesce_join 0 last p ps (joins-zero last p h e))
]

merged-coalesced : (ps : List TimePatch) → All IsPatch ps → merged ps ≡ coalesced 0 ps
unfolding merged coalesced
merged-coalesced [] h = refl
merged-coalesced (p ∷ ps) h = merge_next-coalesce p ps h.0 h.1

-- For patches in milliseconds that end no earlier than they start, _merge_intervals returns such
-- patches, in the order of time and with time between neighbours, that cover the same instants.
pub merge_intervals-IsMerged :
    (ps : List TimePatch) → All IsPatch ps → IsMerged 0 ps (merge_intervals ps)
unfolding merge_intervals
merge_intervals-IsMerged ps h =
    rw
      (merged-coalesced (sort by_start ps)
        (All-Permᴰ IsPatch (Permᴰ.symm (sort-Permᴰ by_start ps)) h))
      (sorted-IsMerged 0 ps h)
