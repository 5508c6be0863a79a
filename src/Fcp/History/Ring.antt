-- ===== src/Fcp/History/Ring.antt =====
-- The array and its cursor as the list of the ten latest records.
use mathlib.Core.List.{reverse, reverse-cons, reverse-append, append-nil, append_assoc}
use libhinawa.Base.{
  ℕ, suc, ◌+◌, ◌<◌, ◌≡◌, inl, inr, refl, sym, ap, ◌∙◌, List, [], ◌∷◌, ◌++◌, ◌||◌, arith, leb,
  if◌then◌else◌, get_or, set, take, drop, length, length-set, length-append, length-take,
  length-drop, length-reverse, take-append-drop, take-set, drop-set, drop-all, drop-get_or,
  take-append_self, Bool-cases,
}
use libhinawa.Fcp.History.{
  NodeRecord, NodeHistory, zero_record, detect_record, insert_record, reset, next_cursor,
  record_count,
}
use libhinawa.Fcp.History.Find.{holds_record, detect_record_lem}

pub record IsValid (h : NodeHistory) : Type 0 where
  pub ten : length h.records ≡ record_count
  pub inside : h.cursor < record_count

pub reset-IsValid : (h : NodeHistory) → IsValid (reset h)
unfolding reset
reset-IsValid h = omega arith

pub insert_record-IsValid :
    (h : NodeHistory) (r : NodeRecord) → IsValid h → IsValid (insert_record h r)
unfolding insert_record
insert_record-IsValid h r v = ground (arith, length-set h.records h.cursor r)

-- The records from the latest to the oldest.
abbrev pub latest : NodeHistory → List NodeRecord
latest h = reverse (take h.cursor h.records) ++ reverse (drop h.cursor h.records)

-- A list of at most ten records to which a new one is added at the front.
abbrev pub remember : NodeRecord → List NodeRecord → List NodeRecord
remember r rs = if holds_record r rs then rs else take record_count (r ∷ rs)

holds-append :
    (t : NodeRecord) (xs ys : List NodeRecord)
    → holds_record t (xs ++ ys) ≡ (holds_record t xs || holds_record t ys)
holds-append t [] ys = refl
holds-append t (x ∷ xs) ys = ground (arith, holds-append t xs ys)

holds-reverse :
    (t : NodeRecord) (xs : List NodeRecord) → holds_record t (reverse xs) ≡ holds_record t xs
holds-reverse t [] = refl
holds-reverse t (x ∷ xs) =
    rw (reverse-cons x xs, holds-append t (reverse xs) (x ∷ []))
      (ground (arith, holds-reverse t xs))

pub holds-latest :
    (t : NodeRecord) (h : NodeHistory) → holds_record t (latest h) ≡ holds_record t h.records
holds-latest t h = ground (
  arith,
  holds-append t (reverse (take h.cursor h.records)) (reverse (drop h.cursor h.records)),
  holds-reverse t (take h.cursor h.records),
  holds-reverse t (drop h.cursor h.records),
  holds-append t (take h.cursor h.records) (drop h.cursor h.records),
  take-append-drop h.cursor h.records,
)

-- The wrap of the cursor at the end of the array is no change of the latest records.
cut_step :
    (c : ℕ) (ys : List NodeRecord)
    → length ys ≡ record_count
    → c < record_count
    → reverse (take (next_cursor c) ys) ++ reverse (drop (next_cursor c) ys)
      ≡ reverse (take (suc c) ys) ++ reverse (drop (suc c) ys)
cut_step c ys len h = elim (Bool-cases (leb record_count (c + 1))) [
  | inl wrap ↦
      let rest : drop (suc c) ys ≡ [] = drop-all (suc c) ys (ground arith) in
      let all : take (suc c) ys ≡ ys =
        sym (append-nil (take (suc c) ys))
        ∙ ap (◌++◌ (take (suc c) ys)) (sym rest)
        ∙ take-append-drop (suc c) ys in
      rw (wrap, rest, all) (sym (append-nil (reverse ys)))
  | inr inside ↦ let next : c + 1 ≡ suc c = omega arith in rw (inside, next) refl
]

-- What the write and the step of the cursor make of the latest records.
latest_step :
    (h : NodeHistory) (r : NodeRecord)
    → IsValid h
    → latest (record { records = set h.records h.cursor r; cursor = next_cursor h.cursor })
      ≡ r ∷ (reverse (take h.cursor h.records) ++ reverse (drop (suc h.cursor) h.records))
latest_step h r v = cut ∙ turned
  where
    open h use {records, cursor}

    ys : List NodeRecord
    ys = set records cursor r

    cut :
        latest (record { records = ys; cursor = next_cursor cursor })
        ≡ reverse (take (suc cursor) ys) ++ reverse (drop (suc cursor) ys)
    cut = cut_step cursor ys (length-set records cursor r ∙ v.ten) v.inside

    turned :
        reverse (take (suc cursor) ys) ++ reverse (drop (suc cursor) ys)
        ≡ r ∷ (reverse (take cursor records) ++ reverse (drop (suc cursor) records))
    turned =
        rw
          (
            take-set cursor records r (omega (arith, v.ten, v.inside)),
            drop-set cursor records r,
            reverse-append (take cursor records) (r ∷ []),
          )
          refl

-- Ten of the eleven records.
remember_step :
    (h : NodeHistory) (r : NodeRecord)
    → IsValid h
    → take record_count (r ∷ latest h)
      ≡ r ∷ (reverse (take h.cursor h.records) ++ reverse (drop (suc h.cursor) h.records))
remember_step h r v = ap (◌∷◌ r) kept
  where
    open h use {records, cursor}

    newer : List NodeRecord
    newer = reverse (take cursor records)

    older : List NodeRecord
    older = reverse (drop (suc cursor) records)

    oldest : NodeRecord
    oldest = get_or records cursor zero_record

    nine : length (newer ++ older) ≡ 9
    nine = omega (
      arith,
      length-append newer older,
      length-reverse (take cursor records),
      length-reverse (drop (suc cursor) records),
      length-take cursor records (omega (arith, v.ten, v.inside)),
      length-drop (suc cursor) records,
      v.ten,
      v.inside,
    )

    split : newer ++ reverse (drop cursor records) ≡ (newer ++ older) ++ (oldest ∷ [])
    split =
        rw
          (
            drop-get_or cursor records zero_record (omega (arith, v.ten, v.inside)),
            reverse-cons oldest (drop (suc cursor) records),
          )
          (sym (append_assoc newer older (oldest ∷ [])))

    kept : take 9 (newer ++ reverse (drop cursor records)) ≡ newer ++ older
    kept = rw split (take-append_self 9 (newer ++ older) (oldest ∷ []) nine)

-- On a history of ten records with the cursor among them, `node_history_insert_record` is an
-- operation on the ten latest records: one that is among them changes nothing, and any other one
-- becomes the latest and displaces the oldest.
pub insert_record_refines :
    (h : NodeHistory) (r : NodeRecord)
    → IsValid h
    → latest (insert_record h r) ≡ remember r (latest h)
unfolding insert_record detect_record
insert_record_refines h r v =
    ground
      (arith, detect_record_lem h r v.ten, holds-latest r h, latest_step h r v, remember_step h r v)
