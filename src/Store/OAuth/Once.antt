-- ===== src/Store/OAuth/Once.antt =====
-- A state is consumed at most once.
use ad_agent.Prelude.{
  ℕ, ◌+◌, ◌*◌, ◌≤◌, ◌<◌, String, eq_refl, ◌==◌, eq_iff, ◌≡◌, refl, false, Option, none, some, List,
  [], ◌∷◌, arith, ap, ltb, eqb, is_some, ◌||◌, Bool-cases, inl, inr,
}
use ad_agent.Prelude.Text.{byte_length}
use ad_agent.Store.Leases.{unix}
use ad_agent.Prelude.Result.{Result, ok, err, ok-injective, refuse, bind_parts, refuse_passed}
use ad_agent.Store.Tables.{Faults}
use ad_agent.Store.OAuth.{
  OAuthIntent, OAuthRow, OAuthLibrary, fifteen_minutes, bad_redirect, row_for, delete_state,
  begin_oauth, consume_oauth,
}

row_for-delete_state : (h : String) (rows : List OAuthRow) → row_for h (delete_state h rows) ≡ none
unfolding row_for delete_state
row_for-delete_state h [] = refl
row_for-delete_state h (r ∷ rows) = ground (arith, row_for-delete_state h rows)

-- Deleting one state leaves the others.
row_for-other :
    (k h : String) (rows : List OAuthRow)
    → ¬ (k ≡ h)
    → row_for k (delete_state h rows) ≡ row_for k rows
unfolding row_for delete_state
row_for-other k h [] n = refl
row_for-other k h (r ∷ rows) n =
    let rest = row_for-other k h rows n in
    ground (arith, rest, eq_iff r.state_hash h, eq_iff r.state_hash k)

-- An operation on the table, of any caller.
pub data OAuthCall : Type 0 where
  begins : Faults → Option String → ℕ → String → String → ℕ → OAuthCall
  consumes : Faults → String → ℕ → OAuthCall

module _ (lib : OAuthLibrary) where
  began : Result (String × List OAuthRow) → List OAuthRow → List OAuthRow
  began (ok (s, rows')) rows = rows'
  began (err e) rows = rows

  unfoldable pub run_call : OAuthCall → List OAuthRow → List OAuthRow
  unfolding began
  run_call (begins f drawn now c u ttl) rows = began (begin_oauth lib f drawn now c u ttl rows) rows
  run_call (consumes f s now) rows = (consume_oauth lib f s now rows).1

  unfoldable pub run_calls : List OAuthCall → List OAuthRow → List OAuthRow
  run_calls [] rows = rows
  run_calls (c ∷ cs) rows = run_calls cs (run_call c rows)

  -- Whether a call draws a state of the given hash.
  abbrev pub Draws : String → OAuthCall → Type 0
  Draws h (begins f none now c u ttl) = ⊥
  Draws h (begins f (some s) now c u ttl) = lib.sha256 s ≡ h
  Draws h (consumes f s now) = ⊥

  abbrev pub NeverDrawn : String → List OAuthCall → Type 0
  NeverDrawn h [] = Unit
  NeverDrawn h (c ∷ cs) = ¬ Draws h c × NeverDrawn h cs

  consumed-gone :
      (f : Faults) (state : String) (now : ℕ) (rows : List OAuthRow) {i : OAuthIntent}
      → (consume_oauth lib f state now rows).0 ≡ ok i
      → row_for (lib.sha256 state) (consume_oauth lib f state now rows).1 ≡ none
  unfolding consume_oauth
  consumed-gone f state now rows h = ground (arith, h, row_for-delete_state (lib.sha256 state) rows)

  consume-absent :
      (f : Faults) (k : String) (state : String) (now : ℕ) (rows : List OAuthRow)
      → row_for k rows ≡ none
      → row_for k (consume_oauth lib f state now rows).1 ≡ none
  unfolding consume_oauth
  consume-absent f k state now rows h = elim (Bool-cases (lib.sha256 state == k)) [
    | inl same ↦ ground (arith, h, same, eq_iff (lib.sha256 state) k, row_for-delete_state k rows)
    | inr other ↦ ground (
      arith,
      h,
      row_for-other k (lib.sha256 state) rows (ground (arith, other, eq_iff (lib.sha256 state) k)),
    )
  ]

  call-absent :
      (k : String) (c : OAuthCall) (rows : List OAuthRow)
      → ¬ Draws k c
      → row_for k rows ≡ none
      → row_for k (run_call c rows) ≡ none
  unfolding run_call begin_oauth row_for
  call-absent k (begins f none now c u ttl) rows n h = ground (arith, h)
  call-absent k (begins f (some s) now c u ttl) rows n h =
      ground (arith, h, n, eq_iff (lib.sha256 s) k)
  call-absent k (consumes f s now) rows n h = consume-absent f k s now rows h

  calls-absent :
      (k : String) (cs : List OAuthCall) (rows : List OAuthRow)
      → NeverDrawn k cs
      → row_for k rows ≡ none
      → row_for k (run_calls cs rows) ≡ none
  unfolding run_calls
  calls-absent k [] rows n h = h
  calls-absent k (c ∷ cs) rows n h =
      calls-absent k cs (run_call c rows) n.1 (call-absent k c rows n.0 h)

  absent-refused :
      (f : Faults) (state : String) (now : ℕ) (rows : List OAuthRow) (i : OAuthIntent)
      → row_for (lib.sha256 state) rows ≡ none
      → ¬ ((consume_oauth lib f state now rows).0 ≡ ok i)
  unfolding consume_oauth
  absent-refused f state now rows i h e = ground (arith, h, e)

  -- Once a state has been consumed, no later call consumes it, whatever calls come between and
  -- whatever the database answers, as long as no new sign-in draws a state with its hash.
  pub consumed_once :
      (f g : Faults) (state : String) (now later : ℕ) (rows : List OAuthRow) (cs : List OAuthCall)
      {i j : OAuthIntent}
      → (consume_oauth lib f state now rows).0 ≡ ok i
      → NeverDrawn (lib.sha256 state) cs
      → ¬ (
          (consume_oauth lib g state later (run_calls cs (consume_oauth lib f state now rows).1)).0
          ≡ ok j)
  consumed_once f g state now later rows cs {j = j} h n =
      absent-refused g state later _ j
        (calls-absent (lib.sha256 state) cs _ n (consumed-gone f state now rows h))

  -- A sign-in that was begun is consumed with what it was begun with, before the second in which it
  -- expires, when the database answers and the state has the length of a drawn one.
  pub consume-begin :
      (f : Faults) (s : String) (now later ttl : ℕ) (c u : String) (rows : List OAuthRow)
      {state : String} {rows' : List OAuthRow}
      → begin_oauth lib f (some s) now c u ttl rows ≡ ok (state, rows')
      → 40 ≤ byte_length state
      → byte_length state ≤ 128
      → later < unix (now + ttl) * 1_000_000_000
      → (consume_oauth lib
          (record { begin = false; first = false; second = false; commit = false })
          state
          later
          rows').0
        ≡ ok (record {
          connection_id = c;
          redirect_url = u;
          created_at = now;
          expires_at = now + ttl;
        })
  unfolding begin_oauth consume_oauth row_for
  consume-begin f s now later ttl c u rows {state} {rows'} h low high early =
      let (_, named, h₁) =
        bind_parts (refuse (c == "" || eqb ttl 0 || ltb fifteen_minutes ttl) _) _ h in
      let (_, url, h₂) = bind_parts (refuse (bad_redirect lib (lib.parse_redirect u)) _) _ h₁ in
      let (_, new, h₃) =
        bind_parts (refuse (f.first || is_some (row_for (lib.sha256 s) rows)) _) _ h₂ in
      let both = ok-injective h₃ in
      let key : s ≡ state = ap (λ p. p.0) both in
      let table = ap (λ p. p.1) both in
      rw (← key, ← table)
        (ground (
          arith,
          low,
          high,
          early,
          key,
          eq_refl (lib.sha256 s),
          refuse_passed (c == "" || eqb ttl 0 || ltb fifteen_minutes ttl) _ named,
        ))
