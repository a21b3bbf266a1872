-- ===== src/Scenarios/StoreRuns.antt =====
-- The theorems on the store, at small tables.
use ad_agent.Prelude.{◌≤◌, ◌+◌, String, ◌≡◌, ◌↔◌, refl, true, false, some, List, [], ◌∷◌, arith}
use ad_agent.Prelude.Result.{ok}
use ad_agent.Ads.Change.{
  ChangeState, staged, applying, applied, discarded, can_transition, same_state, Change,
  budget_change,
}
use ad_agent.Ads.Change.Graph.{
  PathTo, here, step, path_length, steps_left, path-bounded, is_final, is_final-no_step,
}
use ad_agent.Store.Tables.{LeaseRow, Tables, find}
use ad_agent.Store.Changes
use ad_agent.Store.Changes.Rows.{Distinct}
use ad_agent.Store.Changes.Exclusive.{no_faults, one_wins, Swap, transition-succeeds}
use ad_agent.Store.Leases
use ad_agent.Store.Leases.{unix}
use ad_agent.Store.Leases.Exclusion.{
  holder, Outcome, lease-Outcome, Unique, Released, holder-release,
}
use ad_agent.Store.OAuth.{
  OAuthIntent, OAuthRow, OAuthLibrary, begin_oauth, consume_oauth, row_for, delete_state,
  valid_oauth_redirect,
}
use ad_agent.Store.OAuth.Once.{consumes, run_calls, consumed_once, consume-begin}
use ad_agent.Service.Stage.{draft}
use ad_agent.Scenarios.Numbers.{Whole}
use ad_agent.Scenarios.World.{shop_account}

abbrev waiting : Change Whole
waiting = draft "c" "s" shop_account budget_change "" 0 10

abbrev approved : Change Whole
approved = record waiting { state = applying }

abbrev dropped : Change Whole
dropped = record waiting { state = discarded }

abbrev one_row : Tables Whole
one_row = record {
  changes = Changes.row_of waiting ∷ [];
  audit = [];
  leases = [];
  budget_policies = [];
}

abbrev after_approval : Tables Whole
after_approval = record one_row {
  changes = Changes.row_of approved ∷ [];
  audit = Changes.audit_of approved 5 ∷ [];
}

approval_wins : Changes.transition no_faults staged approved 5 one_row ≡ ok after_approval
unfolding Changes.transition Changes.affected Changes.update_rows can_transition same_state
approval_wins = refl

one_row-Distinct : Distinct one_row.changes
unfolding find
one_row-Distinct = (refl, tt)

one_row-find : find "c" one_row.changes ≡ some (Changes.row_of waiting)
unfolding find
one_row-find = refl

staged_then : (s : ChangeState) → same_state s applying ≡ true → can_transition staged s ≡ true
unfolding can_transition
staged_then s h = ground (arith, h)

approval_allowed : can_transition staged applying ≡ true
unfolding can_transition same_state
approval_allowed = refl

application_allowed : can_transition applying applied ≡ true
unfolding can_transition same_state
application_allowed = refl

one_wins_example :
    ¬ (Changes.transition no_faults staged dropped 6 after_approval ≡ ok after_approval)
one_wins_example =
    one_wins no_faults no_faults staged approved dropped 5 6 one_row one_row-Distinct refl
      approval_wins

transition-succeeds_example :
    (t' : Tables Whole) × (Changes.transition no_faults staged approved 5 one_row ≡ ok t')
    × Swap approved 5 (Changes.row_of waiting) one_row t'
transition-succeeds_example =
    transition-succeeds staged approved 5 one_row one_row-Distinct approval_allowed one_row-find
      refl

abbrev staged_to_applied : PathTo staged applied
staged_to_applied = step approval_allowed (step application_allowed here)

path-bounded_example : path_length staged_to_applied + steps_left applied ≤ steps_left staged
path-bounded_example = path-bounded staged_to_applied

is_final-no_step_example :
    (is_final applied ≡ true) ↔ ((t : ChangeState) → can_transition applied t ≡ false)
is_final-no_step_example = is_final-no_step applied

abbrev one_lease : List LeaseRow
one_lease = record { id = "session"; owner = "me"; until_unix = 60 } ∷ []

lease-Outcome_example :
    Outcome "session" "you"
      (unix 90_000_000_000)
      one_lease
      (unix 30_000_000_000)
      (Leases.lease false "session" "you" 90_000_000_000 30_000_000_000 one_lease)
lease-Outcome_example = lease-Outcome "session" "you" 90_000_000_000 30_000_000_000 one_lease

one_lease-Unique : Unique one_lease
unfolding holder
one_lease-Unique = (refl, tt)

holder-release_example :
    Released "session" "you" one_lease (Leases.release false "session" "you" one_lease)
holder-release_example = holder-release "session" "you" one_lease one_lease-Unique

abbrev plain_library : OAuthLibrary
plain_library = record {
  sha256 = λ s. s;
  parse_redirect = λ s. some (record {
    scheme = "http";
    host = "localhost:8080";
    hostname = "localhost";
    path = "/";
    raw_query = "";
    fragment = "";
    has_user = false;
  });
  is_loopback_ip = λ s. false;
}

abbrev drawn_state : String
drawn_state = "0123456789012345678901234567890123456789012"

abbrev sign_in : OAuthIntent
sign_in = record {
  connection_id = "shop";
  redirect_url = "http://localhost:8080/";
  created_at = 0;
  expires_at = 60_000_000_000;
}

abbrev sign_in_rows : List OAuthRow
sign_in_rows = record { state_hash = drawn_state; payload = sign_in; expires_unix = 60 } ∷ []

begin_runs :
    begin_oauth plain_library no_faults
      (some drawn_state)
      0
      "shop"
      "http://localhost:8080/"
      60_000_000_000
      []
    ≡ ok (drawn_state, sign_in_rows)
unfolding begin_oauth row_for valid_oauth_redirect
begin_runs = refl

consume_runs : (consume_oauth plain_library no_faults drawn_state 5 sign_in_rows).0 ≡ ok sign_in
unfolding consume_oauth row_for delete_state
consume_runs = refl

consume-begin_example :
    (consume_oauth plain_library no_faults drawn_state 5 sign_in_rows).0 ≡ ok sign_in
consume-begin_example =
    consume-begin plain_library no_faults drawn_state 0 5 60_000_000_000 "shop"
      "http://localhost:8080/" [] begin_runs (omega arith) (omega arith) (omega arith)

consumed_once_example : ¬ (
    (consume_oauth plain_library no_faults drawn_state 7 (
      run_calls plain_library
        (consumes no_faults "other" 6 ∷ [])
        (consume_oauth plain_library no_faults drawn_state 5 sign_in_rows).1)).0
    ≡ ok sign_in)
consumed_once_example =
    consumed_once plain_library no_faults no_faults drawn_state 5 7 sign_in_rows
      (consumes no_faults "other" 6 ∷ []) consume_runs ((λ x. x), tt)
