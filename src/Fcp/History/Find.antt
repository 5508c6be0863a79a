-- ===== src/Fcp/History/Find.antt =====
-- The search of the history finds what the array holds.
use libhinawa.Base.{
  ℕ, zero, suc, ◌+◌, ◌<◌, ◌≡◌, get_or, inl, inr, refl, ap, List, [], ◌∷◌, Option, none, some, Bool,
  true, false, arith, leb, if◌then◌else◌, drop, length, drop-all, drop-get_or, Bool-cases,
}
use libhinawa.Fcp.History.{
  NodeRecord, NodeHistory, zero_record, same_record, iterator_next, find_loop, find_record,
  detect_record, record_count,
}

-- Whether a list holds a record.
abbrev pub holds_record : NodeRecord → List NodeRecord → Bool
holds_record target [] = false
holds_record target (r ∷ rs) = if same_record r target then true else holds_record target rs

abbrev is_some : Option NodeRecord → Bool
is_some none = false
is_some (some r) = true

find_loop_lem :
    (fuel i : ℕ) (rs : List NodeRecord) (target : NodeRecord)
    → length rs ≡ record_count
    → i + fuel ≡ record_count + 1
    → (0 < fuel)
    → (found : Option NodeRecord) × (find_loop fuel (record { records = rs; cursor = i }) target
        ≡ some found)
      × (is_some found ≡ holds_record target (drop i rs))
unfolding find_loop iterator_next
find_loop_lem zero i rs target len e more = absurd (omega arith)
find_loop_lem (suc fuel) i rs target len e more = elim (Bool-cases (leb record_count i)) [
  | inl stop ↦ (none, ground arith, rw (drop-all i rs (ground arith)) refl)
  | inr go ↦
      let next : i + 1 ≡ suc i = omega arith in
      let (found, run, holds) =
        find_loop_lem fuel (i + 1) rs target len (omega arith) (ground arith) in
      elim (Bool-cases (same_record (get_or rs i zero_record) target)) [
        | inl same ↦ (
          some (get_or rs i zero_record),
          ground arith,
          rw (drop-get_or i rs zero_record (ground arith)) (ground arith),
        )
        | inr differ ↦ (
          found,
          ground (arith, run),
          rw (drop-get_or i rs zero_record (ground arith))
              (ground (arith, holds, ap (λ k. drop k rs) next)),
        )
      ]
]

-- On an array of ten records the loop of the search, from its start, ends within the ten turns and
-- the one that finds no further record; and the search succeeds exactly when the array holds the
-- record.
pub detect_record_ends :
    (h : NodeHistory) (target : NodeRecord)
    → length h.records ≡ record_count
    → ((found : Option NodeRecord) × (find_loop 11
            (record { records = h.records; cursor = 0 })
            target
          ≡ some found))
      × (detect_record h target ≡ holds_record target h.records)
unfolding detect_record find_record
detect_record_ends h target len =
    let (found, run, holds) = find_loop_lem 11 0 h.records target len refl (omega arith) in
    ((found, run), ground (arith, run, holds))

pub detect_record_lem :
    (h : NodeHistory) (target : NodeRecord)
    → length h.records ≡ record_count
    → detect_record h target ≡ holds_record target h.records
detect_record_lem h target len = (detect_record_ends h target len).1
