-- ===== src/Audit/Table.antt =====
-- internal/audit/sqlite_store.go: the event table, kept in the order of a scan,
-- (ts_unix_nano, event_id).
use Prim.Native.String
use mcpshield.Prelude.{
  ◌≡◌, refl, ◌+◌, ℕ, zero, suc, String, Bool, true, false, ◌||◌, ◌&&◌, Option, none, some, List, [],
  ◌∷◌, length, any, ltb, eqb, if◌then◌else◌, ◌==◌, leb, is_empty,
}
use mcpshield.Audit.Hashing.{StoredEvent, Platform, compute_hash, sealed}

-- `DeleteBefore`
unfoldable pub delete_before : ℕ → List StoredEvent → List StoredEvent
delete_before cutoff [] = []
delete_before cutoff (e ∷ es) =
    let rest = delete_before cutoff es in
    if ltb e.payload.ts_unix_nano cutoff then rest else e ∷ rest

unfoldable pub drop_rows : ℕ → List StoredEvent → List StoredEvent
drop_rows zero rows = rows
drop_rows (suc n) [] = []
drop_rows (suc n) (e ∷ es) = drop_rows n es

-- one round fewer until the error
abbrev pub next_round : Option ℕ → Option ℕ
next_round none = none
next_round (some zero) = some zero
next_round (some (suc k)) = some k

abbrev pub errs_now : Option ℕ → Bool
errs_now none = false
errs_now (some zero) = true
errs_now (some (suc k)) = false

-- `TrimToSize` for a number of rounds: whether it returns nil, and the rows that are left. `size` is
-- what `DBSize` finds; an error of `DBSize` or of the DELETE comes after the rounds `fails`, if any.
unfoldable pub trim_rounds :
    (List StoredEvent → ℕ) → ℕ → ℕ → Option ℕ → List StoredEvent → Bool × List StoredEvent
unfolding drop_rows
trim_rounds size max zero fails rows = (true, rows)
trim_rounds size max (suc fuel) fails rows =
    let rest = trim_rounds size max fuel (next_round fails) (drop_rows 100 rows) in
    if errs_now fails
    then (false, rows)
    else if leb (size rows) max || is_empty rows
    then (true, rows)
    else rest

abbrev pub trim_to_size :
    (List StoredEvent → ℕ) → ℕ → Option ℕ → List StoredEvent → Bool × List StoredEvent
trim_to_size size max fails rows = trim_rounds size max (suc (length rows)) fails rows

module _ (pf : Platform) where
  -- ORDER BY ts_unix_nano, event_id
  abbrev pub row_before : StoredEvent → StoredEvent → Bool
  row_before a b =
      ltb a.payload.ts_unix_nano b.payload.ts_unix_nano
      || (eqb a.payload.ts_unix_nano b.payload.ts_unix_nano
          && pf.id_before a.payload.event_id b.payload.event_id)

  unfoldable pub insert_row : StoredEvent → List StoredEvent → List StoredEvent
  insert_row e [] = e ∷ []
  insert_row e (r ∷ rs) =
      let rest = insert_row e rs in if row_before e r then e ∷ r ∷ rs else r ∷ rest

  -- the primary key is taken
  abbrev pub has_id : String → List StoredEvent → Bool
  has_id id = any (λ r. r.payload.event_id == id)

  -- `InsertBatch`: one transaction, so no row if a key is taken
  unfoldable pub insert_batch : List StoredEvent → List StoredEvent → Option (List StoredEvent)
  unfolding insert_row
  insert_batch [] rows = some rows
  insert_batch (e ∷ es) rows =
      let rest = insert_batch es (insert_row e rows) in
      if has_id e.payload.event_id rows then none else rest

  -- `ResealChain`: each row anew, from the oldest on
  unfoldable pub reseal_from : String → List StoredEvent → List StoredEvent
  unfolding compute_hash
  reseal_from prev [] = []
  reseal_from prev (e ∷ es) =
      sealed pf prev e.payload ∷ reseal_from (compute_hash pf prev e.payload) es

  abbrev pub reseal_chain : List StoredEvent → List StoredEvent
  reseal_chain = reseal_from ""

-- `os.Stat`: the size, that there is no such file, or another error
pub data Stat : Type 0 where
  found : ℕ → Stat
  missing failed : Stat

-- the loop of `DBSize` over the suffixes; a `none` is the error
unfoldable pub sum_sizes : (String → Stat) → String → List String → ℕ → Option ℕ
sum_sizes stat path [] total = some total
sum_sizes stat path (suffix ∷ rest) total = elim (stat (String.◌++◌ path suffix)) [
  | found n ↦ sum_sizes stat path rest (total + n)
  | missing ↦ sum_sizes stat path rest total
  | failed ↦ none
]

-- `DBSize` of the database at a path
unfoldable pub db_size : (String → Stat) → String → Option ℕ
unfolding sum_sizes
db_size stat path = sum_sizes stat path ("" ∷ "-wal" ∷ "-shm" ∷ []) 0

-- a database without a shared-memory file
size_without_shm :
    db_size
      (λ f. if f == "a.db" then found 7 else if f == "a.db-wal" then found 2 else missing)
      "a.db"
    ≡ some 9
unfolding db_size
size_without_shm = refl
