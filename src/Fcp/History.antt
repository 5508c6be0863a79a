-- ===== src/Fcp/History.antt =====
-- src/fw_fcp.c: `struct node_history`, the ring of the ten latest pairs of bus generation and node
-- ID under which the bound node has been seen. The mutex around it is taken by the caller.
pub mod Find
pub mod Ring
use libhinawa.Base.{
  ℕ, zero, suc, ◌+◌, List, Option, none, some, Bool, true, false, ◌&&◌, ◌==◌, leb, if◌then◌else◌,
  get_or, set, replicate, ◌>>=◌,
}

-- `NODE_HISTORY_RECORD_COUNT`
abbrev pub record_count : ℕ
record_count = 10

pub record NodeRecord : Type 0 where
  pub generation : ℕ
  pub src_node_id : ℕ

-- The cursor is an index into the array.
pub record NodeHistory : Type 0 where
  pub records : List NodeRecord
  pub cursor : ℕ

pub record NodeRecordIterator : Type 0 where
  pub records : List NodeRecord
  pub cursor : ℕ

abbrev pub zero_record : NodeRecord
zero_record = record { generation = 0; src_node_id = 0 }

-- `!memcmp(a, b, sizeof(*a))`
unfoldable pub same_record : NodeRecord → NodeRecord → Bool
same_record a b = a.generation == b.generation && a.src_node_id == b.src_node_id

abbrev pub iterator_init : NodeHistory → NodeRecordIterator
iterator_init history = record { records = history.records; cursor = 0 }

unfoldable pub iterator_next : NodeRecordIterator → Option (NodeRecord × NodeRecordIterator)
iterator_next iter =
    if leb record_count iter.cursor
    then none
    else some
        (get_or iter.records iter.cursor zero_record, record iter { cursor = iter.cursor + 1 })

-- The loop of `node_history_find_record`, with fuel: no result is a loop that has not ended, and the
-- result of one that has ended is the record or a null pointer.
unfoldable pub find_loop : ℕ → NodeRecordIterator → NodeRecord → Option (Option NodeRecord)
find_loop zero iter target = none
find_loop (suc fuel) iter target = elim (iterator_next iter) [
  | none ↦ some none
  | some (current, iter') ↦
      let rest = find_loop fuel iter' target in
      if same_record current target then some (some current) else rest
]

-- Ten turns of the loop, and one that ends it.
unfoldable pub find_record : NodeHistory → NodeRecord → Option NodeRecord
find_record history target =
    find_loop (record_count + 1) (iterator_init history) target >>= (λ found. found)

-- `node_history_detect_record`
unfoldable pub detect_record : NodeHistory → NodeRecord → Bool
detect_record history target = elim (find_record history target) [ none ↦ false | some r ↦ true ]

unfoldable pub reset : NodeHistory → NodeHistory
reset history = record { records = replicate record_count zero_record; cursor = 0 }

-- The step of the cursor, back to the start behind the last record.
abbrev pub next_cursor : ℕ → ℕ
next_cursor cursor = if leb record_count (cursor + 1) then 0 else cursor + 1

unfoldable pub insert_record : NodeHistory → NodeRecord → NodeHistory
insert_record history new = elim (find_record history new) [
  | some found ↦ history
  | none ↦ record {
    records = set history.records history.cursor new;
    cursor = next_cursor history.cursor;
  }
]
