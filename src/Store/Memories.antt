-- ===== src/Store/Memories.antt =====
-- internal/store/memory.go: the stable facts of an account. A fact that is saved on request is
-- appended; one that is extracted after a turn replaces the fact with its key.
pub mod Keyed
pub mod Kept
pub mod Facts
pub mod Calls
pub mod Tracked
pub mod Listed
use Prim.Native.Char.{Char, char, code}
use Prim.Native.String
use ad_agent.Prelude.{
  ℕ, zero, suc, String, ◌==◌, Bool, true, false, not, ◌&&◌, ◌||◌, Option, none, some, List, [], ◌∷◌,
  ◌++◌, eqb, ltb, leb, any, is_some, if◌then◌else◌,
}
use ad_agent.Prelude.Text.{byte_length, is_space}
use ad_agent.Prelude.Result.{Result, Check, ok, err, ◌>>=◌, ◌>>◌, refuse}
use ad_agent.Prelude.Sorting.{sort}
use ad_agent.Store.MemoryText.{MemoryLibrary, has_line_break, trim_space, fact_key_of}
use ad_agent.Ads.Types.{Source, same_source}
use ad_agent.Ads.Analysis.{text_less}
use ad_agent.Store.Tables.{Faults, database_error}

pub data MemoryKind : Type 0 where
  preference constraint goal : MemoryKind
  other_kind : String → MemoryKind

pub record Memory : Type 0 where
  pub id : String
  pub key : String
  pub kind : MemoryKind
  pub text : String
  pub created_at : ℕ

-- memories(id TEXT PRIMARY KEY, source, text, created_at). The column `text` holds the JSON of the
-- memory; none stands for a text that is not one.
pub record MemoryRow : Type 0 where
  pub id : String
  pub source : Source
  pub payload : Option Memory
  pub created_at : String

-- MemoryKind.valid
unfoldable pub is_valid_kind : MemoryKind → Bool
is_valid_kind (other_kind _) = false
is_valid_kind _ = true

-- validMemory
unfoldable pub valid_memory : String → MemoryKind → String → Bool
unfolding is_valid_kind has_line_break
valid_memory key kind text =
    is_valid_kind kind
    && not (text == "")
    && leb (byte_length text) 500
    && not (has_line_break text)
    && leb (byte_length key) 64
    && not (has_line_break key)

-- memorySourceKey: the JSON of a source, which is as good as the source itself.
unfoldable pub memory_source_key : Source → Result Source
memory_source_key s = do
  refuse (s.backend == "" || s.environment == "" || s.account_id == "") "invalid_memory_source"
  ok s

unfoldable pub has_id : String → List MemoryRow → Bool
has_id id rows = any (λ r. r.id == id) rows

-- WHERE source = ?
unfoldable pub of_source : Source → List MemoryRow → List MemoryRow
of_source s [] = []
of_source s (r ∷ rows) =
    let rest = of_source s rows in if same_source r.source s then r ∷ rest else rest

-- ORDER BY created_at DESC, id DESC
unfoldable pub comes_first : MemoryRow → MemoryRow → Bool
comes_first a b =
    text_less b.created_at a.created_at || a.created_at == b.created_at && text_less b.id a.id

-- The key that a row's memory has; "" when the row holds none.
unfoldable pub key_of : MemoryRow → String
key_of r = elim r.payload [ none ↦ "" | some m ↦ m.key ]

abbrev pub holds_key : String → MemoryRow → Bool
holds_key key r = is_some r.payload && key_of r == key

-- The loop over the rows of UpsertMemory. An id is drawn by store.ID and is never empty, so that an
-- empty existingID is `none`.
unfoldable pub existing_id : String → List MemoryRow → Option String
unfolding key_of
existing_id key [] = none
existing_id key (r ∷ rows) =
    let rest = existing_id key rows in if holds_key key r then some r.id else rest

-- WHERE id = ? AND source = ?
abbrev pub at_id : String → Source → MemoryRow → Bool
at_id id s r = r.id == id && same_source r.source s

-- UPDATE memories SET text = ?, created_at = ? WHERE id = ? AND source = ?
unfoldable pub update_memory : String → Source → Memory → String → List MemoryRow → List MemoryRow
update_memory id s m at [] = []
update_memory id s m at (r ∷ rows) =
    let rest = update_memory id s m at rows in
    if at_id id s r then record r { payload = some m; created_at = at } ∷ rest else r ∷ rest

-- DELETE FROM memories WHERE id = ? AND source = ?
unfoldable pub delete_rows : String → Source → List MemoryRow → List MemoryRow
delete_rows id s [] = []
delete_rows id s (r ∷ rows) =
    let rest = delete_rows id s rows in if at_id id s r then rest else r ∷ rest

-- SELECT text FROM memories WHERE id = ? AND source = ?
unfoldable pub row_at : String → Source → List MemoryRow → Option MemoryRow
row_at id s [] = none
row_at id s (r ∷ rows) = if at_id id s r then some r else row_at id s rows

-- INSERT INTO memories, which the primary key refuses for a known id.
unfoldable pub insert_memory :
    Bool → Source → Memory → String → List MemoryRow → Result (List MemoryRow)
unfolding has_id
insert_memory fault s m at rows = do
  refuse (fault || has_id m.id rows) database_error
  ok (rows ++ record { id = m.id; source = s; payload = some m; created_at = at } ∷ [])

-- The loop over the rows of Memories.
unfoldable pub decoded : List MemoryRow → Result (List Memory)
decoded [] = ok []
decoded (r ∷ rows) = do
  m ← elim r.payload [ none ↦ err "invalid_stored_memory" | some m ↦ ok m ]
  rest ← decoded rows
  ok (m ∷ rest)

-- LIMIT ?
unfoldable pub take {ℓ} : {A : Type ℓ} → ℕ → List A → List A
take zero l = []
take (suc n) [] = []
take (suc n) (x ∷ l) = x ∷ take n l

module _ (lib : MemoryLibrary) where
  -- SaveMemory, with the id that was drawn
  unfoldable pub save_memory :
      Faults
      → String
      → ℕ
      → Source
      → MemoryKind
      → String
      → List MemoryRow
      → Result (Memory × List MemoryRow)
  save_memory f id now source kind text rows = do
    let text = trim_space text
    refuse (not (valid_memory "" kind text)) "invalid_memory"
    key ← memory_source_key source
    let m : Memory = record { id = id; key = ""; kind = kind; text = text; created_at = now }
    rows' ← insert_memory f.first key m (lib.stamp now) rows
    ok (m, rows')

  pub written :
      Faults → Option String → Source → Memory → String → List MemoryRow → Result (List MemoryRow)
  written f none s m at rows = insert_memory f.second s m at rows
  written f (some id) s m at rows = do
    refuse f.second database_error
    ok (update_memory id s m at rows)

  -- UpsertMemory
  unfoldable pub upsert_memory :
      Faults
      → String
      → ℕ
      → Source
      → String
      → MemoryKind
      → String
      → List MemoryRow
      → Result (Memory × List MemoryRow)
  unfolding written
  upsert_memory f drawn now source fact_key kind text rows = do
    let fact_key = fact_key_of lib fact_key
    let text = trim_space text
    refuse (fact_key == "" || not (valid_memory fact_key kind text)) "invalid_memory"
    key ← memory_source_key source
    refuse (f.begin || f.first) database_error
    let existing = existing_id fact_key (sort comes_first (of_source key rows))
    let id : String = elim existing [ none ↦ drawn | some id ↦ id ]
    let m : Memory = record { id = id; key = fact_key; kind = kind; text = text; created_at = now }
    rows' ← written f existing key m (lib.stamp now) rows
    refuse f.commit database_error
    ok (m, rows')

-- Memories
unfoldable pub memories : Bool → Source → ℕ → List MemoryRow → Result (List Memory)
memories fault source limit rows = do
  refuse (ltb limit 1 || ltb 50 limit) "invalid_memory_limit"
  key ← memory_source_key source
  refuse fault database_error
  decoded (take limit (sort comes_first (of_source key rows)))

-- DeleteMemory
unfoldable pub delete_memory :
    Faults → Source → String → List MemoryRow → Result (Memory × List MemoryRow)
delete_memory f source id rows = do
  key ← memory_source_key source
  refuse (f.begin || f.first) database_error
  r ← elim (row_at id key rows) [ none ↦ err "memory_not_found" | some r ↦ ok r ]
  m ← elim r.payload [ none ↦ err "invalid_stored_memory" | some m ↦ ok m ]
  refuse (f.second || f.commit) database_error
  ok (m, delete_rows id key rows)
