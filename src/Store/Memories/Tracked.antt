-- ===== src/Store/Memories/Tracked.antt =====
-- internal/store/memory.go: what a run of calls leaves in the table.
use ad_agent.Prelude.{
  ℕ, String, ◌==◌, eq_iff, ◌≡◌, ◌≢◌, refl, subst, not, ◌||◌, Option, none, some, List, [], ◌∷◌,
  arith, inl, inr, ◌⊎◌, ap, ◌∙◌, Option-cases,
}
use ad_agent.Prelude.Result.{Result, ok, err, refuse, bind_parts, refuse_passed, ok-injective}
use ad_agent.Prelude.Sorting.{sort}
use ad_agent.Ads.Types.{Source}
use ad_agent.Store.Tables.{Faults}
use ad_agent.Store.Memories.{
  MemoryKind, Memory, MemoryRow, insert_memory, update_memory, written, memory_source_key,
  valid_memory, existing_id, comes_first, of_source, row_at, save_memory, upsert_memory,
  delete_memory,
}
use ad_agent.Store.MemoryText.{MemoryLibrary, trim_space, fact_key_of}
use ad_agent.Store.Memories.Keyed.{existing-none, existing-some}
use ad_agent.Store.Memories.Facts.{Fact}
use ad_agent.Store.Memories.Calls.{
  MemoryCall, saves, upserts, deletes, Facts, with_fact, Tracks, source_key-same, inserted,
  insert-Tracks, update-Tracks, delete-Tracks,
}

Answer-cases :
    (r : Result (Memory × List MemoryRow))
    → ((e : String) × (r ≡ err e)) ⊎ ((m : Memory) × (rows : List MemoryRow) × (r ≡ ok (m, rows)))
Answer-cases (ok (m, rows)) = inr (m, rows, refl)
Answer-cases (err e) = inl (e, refl)

module _ (lib : MemoryLibrary) where
  unfoldable pub answer_of : MemoryCall → List MemoryRow → Result (Memory × List MemoryRow)
  answer_of (saves f id now s kind text) rows = save_memory lib f id now s kind text rows
  answer_of (upserts f id now s key kind text) rows =
      upsert_memory lib f id now s key kind text rows
  answer_of (deletes f s id) rows = delete_memory f s id rows

  -- What a call that has answered does to the facts: a memory saved on request changes none, an
  -- extracted one sets the fact of its key, and a deleted one unsets the fact of its key.
  unfoldable pub specified : MemoryCall → Memory → Facts → Facts
  specified (saves f id now s kind text) m facts = facts
  specified (upserts f id now s key kind text) m facts =
      with_fact s (fact_key_of lib key) (some (record { kind = kind; text = trim_space text }))
        facts
  specified (deletes f s id) m facts = with_fact s m.key none facts

  abbrev on_table : Result (Memory × List MemoryRow) → List MemoryRow → List MemoryRow
  on_table (err e) rows = rows
  on_table (ok (m, rows')) rows = rows'

  abbrev on_facts : MemoryCall → Result (Memory × List MemoryRow) → Facts → Facts
  on_facts c (err e) facts = facts
  on_facts c (ok (m, rows')) facts = specified c m facts

  unfoldable pub run_memory : List MemoryCall → List MemoryRow → List MemoryRow
  run_memory [] rows = rows
  run_memory (c ∷ cs) rows = run_memory cs (on_table (answer_of c rows) rows)

  -- The facts that the calls stand for, each taken by what it answered.
  unfoldable pub run_facts : List MemoryCall → List MemoryRow → Facts → Facts
  run_facts [] rows facts = facts
  run_facts (c ∷ cs) rows facts =
      run_facts cs (on_table (answer_of c rows) rows) (on_facts c (answer_of c rows) facts)

  Tracks-same :
      (facts facts' : Facts) (rows : List MemoryRow)
      → ((s : Source) (k : String) → k ≢ "" → facts' s k ≡ facts s k)
      → Tracks facts' rows
      → Tracks facts rows
  Tracks-same facts facts' rows same t = record {
    keyed = t.keyed;
    at = λ s k n. t.at s k n ∙ same s k n;
  }

  blank_slot :
      (s : Source) (facts : Facts) (v : Option Fact) (t : Source) (j : String)
      → j ≢ ""
      → with_fact s "" v facts t j ≡ facts t j
  unfolding with_fact
  blank_slot s facts v t j n = ground (arith, n, eq_iff "" j)

  save-Tracks :
      (facts : Facts) (f : Faults) (id : String) (now : ℕ) (s : Source) (kind : MemoryKind)
      (text : String) (rows : List MemoryRow) {m : Memory} {rows' : List MemoryRow}
      → save_memory lib f id now s kind text rows ≡ ok (m, rows')
      → Tracks facts rows
      → Tracks facts rows'
  unfolding save_memory
  save-Tracks facts f id now s kind text rows h t =
      let (_, _, h₁) = bind_parts (refuse (not (valid_memory "" kind (trim_space text))) _) _ h in
      let (key, _, h₂) = bind_parts (memory_source_key s) _ h₁ in
      let (rows₁, put, h₃) = bind_parts (insert_memory f.first key _ (lib.stamp now) rows) _ h₂ in
      let (new, added) = inserted f.first key _ (lib.stamp now) rows put in
      let tracked = insert-Tracks facts rows key _ (lib.stamp now) (inr refl) new t in
      subst (Tracks facts) (added ∙ ap (λ p. p.1) (ok-injective h₃))
        (Tracks-same facts _ _ (blank_slot key facts _) tracked)

  rewritten :
      (f : Faults) (id : String) (s : Source) (m : Memory) (at : String) (rows : List MemoryRow)
      {rows' : List MemoryRow}
      → written lib f (some id) s m at rows ≡ ok rows'
      → update_memory id s m at rows ≡ rows'
  unfolding written
  rewritten f id s m at rows h =
      let (_, _, rest) = bind_parts (refuse f.second _) _ h in ok-injective rest

  upsert-Tracks :
      (facts : Facts) (f : Faults) (id : String) (now : ℕ) (s : Source) (k : String)
      (kind : MemoryKind) (text : String) (rows : List MemoryRow) {m : Memory}
      {rows' : List MemoryRow}
      → upsert_memory lib f id now s k kind text rows ≡ ok (m, rows')
      → Tracks facts rows
      → Tracks
          (with_fact s
            (fact_key_of lib k)
            (some (record { kind = kind; text = trim_space text }))
            facts)
          rows'
  unfolding upsert_memory written
  upsert-Tracks facts f id now s k kind text rows h t =
      let memory_of : String → Memory = λ i. record {
        id = i;
        key = fact_key_of lib k;
        kind = kind;
        text = trim_space text;
        created_at = now;
      } in
      let (_, good, h₁) =
        bind_parts
          (refuse
            (fact_key_of lib k == ""
              || not (valid_memory (fact_key_of lib k) kind (trim_space text)))
            _)
          _ h in
      let passed =
        refuse_passed
          (fact_key_of lib k == "" || not (valid_memory (fact_key_of lib k) kind (trim_space text)))
          _ good in
      let named : fact_key_of lib k ≢ "" =
        λ e. ground (arith, passed, e, eq_iff (fact_key_of lib k) "") in
      let (key, is_key, h₂) = bind_parts (memory_source_key s) _ h₁ in
      let (_, _, h₃) = bind_parts (refuse (f.begin || f.first) _) _ h₂ in
      elim (Option-cases
        (existing_id (fact_key_of lib k) (sort comes_first (of_source key rows)))) [
          | inl new ↦
              let (rows₁, put, h₄) =
                bind_parts (insert_memory f.second key (memory_of id) (lib.stamp now) rows) _
                  (rw new at h₃) in
              let (free, added) = inserted f.second key (memory_of id) (lib.stamp now) rows put in
              let (_, _, h₅) = bind_parts (refuse f.commit _) _ h₄ in
              let tracked =
                insert-Tracks facts rows key (memory_of id) (lib.stamp now)
                  (inl (existing-none key (fact_key_of lib k) rows new)) free t in
              let same = ap (λ p. p.1) (ok-injective h₅) in
              rw (source_key-same s is_key) (subst (Tracks _) (added ∙ same) tracked)
          | inr (old, at) ↦
              let (rows₁, put, h₄) =
                bind_parts (written lib f (some old) key (memory_of old) (lib.stamp now) rows) _
                  (rw at at h₃) in
              let (_, _, h₅) = bind_parts (refuse f.commit _) _ h₄ in
              let tracked =
                update-Tracks facts rows old key (memory_of old) (lib.stamp now) named
                  (existing-some key (fact_key_of lib k) rows old at) t in
              let same = ap (λ p. p.1) (ok-injective h₅) in
              rw (source_key-same s is_key) (
                subst (Tracks _)
                  (rewritten f old key (memory_of old) (lib.stamp now) rows put ∙ same) tracked)
        ]

  remove-Tracks :
      (facts : Facts) (f : Faults) (s : Source) (id : String) (rows : List MemoryRow) {m : Memory}
      {rows' : List MemoryRow}
      → delete_memory f s id rows ≡ ok (m, rows')
      → Tracks facts rows
      → Tracks (with_fact s m.key none facts) rows'
  unfolding delete_memory
  remove-Tracks facts f s id rows h t =
      let (key, is_key, h₁) = bind_parts (memory_source_key s) _ h in
      let (_, _, h₂) = bind_parts (refuse (f.begin || f.first) _) _ h₁ in
      elim (Option-cases (row_at id key rows)) [
        | inl gone ↦ let none_there = rw gone at h₂ in cc none_there
        | inr (r, there) ↦ elim (Option-cases r.payload) [
          | inl blank ↦ let none_held = rw (there, blank) at h₂ in cc none_held
          | inr (n, held) ↦
              let (_, _, h₃) =
                bind_parts (refuse (f.second || f.commit) _) _ (rw (there, held) at h₂) in
              let same = ok-injective h₃ in
              let is_m = ap (λ p. p.0) same in
              let tracked = delete-Tracks facts rows id key r n there held t in
              rw (source_key-same s is_key, ← is_m) (subst (Tracks _) (ap (λ p. p.1) same) tracked)
        ]
      ]

  call-Tracks :
      (facts : Facts) (c : MemoryCall) (rows : List MemoryRow)
      → Tracks facts rows
      → Tracks (on_facts c (answer_of c rows) facts) (on_table (answer_of c rows) rows)
  unfolding answer_of specified
  call-Tracks facts (saves f id now s kind text) rows t =
      elim (Answer-cases (save_memory lib f id now s kind text rows)) [
        | inl (e, h) ↦ rw h t
        | inr (m, rows', h) ↦ rw h (save-Tracks facts f id now s kind text rows h t)
      ]
  call-Tracks facts (upserts f id now s k kind text) rows t =
      elim (Answer-cases (upsert_memory lib f id now s k kind text rows)) [
        | inl (e, h) ↦ rw h t
        | inr (m, rows', h) ↦ rw h (upsert-Tracks facts f id now s k kind text rows h t)
      ]
  call-Tracks facts (deletes f s id) rows t = elim (Answer-cases (delete_memory f s id rows)) [
    | inl (e, h) ↦ rw h t
    | inr (m, rows', h) ↦ rw h (remove-Tracks facts f s id rows h t)
  ]

  -- Whatever calls are made, and whatever the database answers, the table holds one fact for each
  -- source and key: the one that the calls stand for, which are a map that a save on request leaves
  -- alone, that an extraction sets at its key, and that a deletion unsets at the key of what it
  -- deletes. It also keeps the ids and the keys of the rows apart.
  pub run_memory-Tracks :
      (cs : List MemoryCall) (rows : List MemoryRow) (facts : Facts)
      → Tracks facts rows
      → Tracks (run_facts cs rows facts) (run_memory cs rows)
  unfolding run_memory run_facts
  run_memory-Tracks [] rows facts t = t
  run_memory-Tracks (c ∷ cs) rows facts t = run_memory-Tracks cs _ _ (call-Tracks facts c rows t)
