-- ===== src/Scenarios/MemoryRuns.antt =====
-- The theorems on memories and on the selected execution, at small inputs.
use ad_agent.Prelude.{◌≡◌, refl, true, false, some, none, List, [], ◌∷◌}
use ad_agent.Prelude.Result.{ok}
use ad_agent.Prelude.Sorting.{sort, insert}
use ad_agent.Ads.Types.{Source, same_source}
use ad_agent.Store.Changes.Exclusive.{no_faults}
use ad_agent.Store.Memories.{
  MemoryRow, Memory, preference, goal, memories, memory_source_key, of_source, comes_first, decoded,
  take,
}
use ad_agent.Store.MemoryText.{MemoryLibrary}
use ad_agent.Store.Memories.Facts.{fact_at}
use ad_agent.Store.Memories.Calls.{MemoryCall, saves, upserts, deletes, Facts, Tracks}
use ad_agent.Store.Memories.Tracked.{run_memory, run_facts, run_memory-Tracks}
use ad_agent.Store.Memories.Listed.{Listed, memories-Listed}
use ad_agent.Store.Session.{Session}
use ad_agent.Runtime.Models.{
  ModelLibrary, no_model, default_model_selection, normalize_model, validate_model,
  validate_oauth_model, validate_codex_model, supported_models, same_model,
}
use ad_agent.Store.Conversation.{
  select_execution, is_unsettled, fits_runtime, bind_execution_contract,
}
use ad_agent.Store.Conversation.Selected.{Bound, select_execution-Bound}
use ad_agent.Scenarios.Numbers.{Whole}
use ad_agent.Scenarios.World.{shop_source}
use ad_agent.Scenarios.Shop.{shop_session}

abbrev plain_memories : MemoryLibrary
plain_memories = record { lower = λ c. c; stamp = λ t. "2026-01-31T00:00:00Z" }

abbrev memory_calls : List MemoryCall
memory_calls =
    saves no_faults "m1" 1 shop_source goal " reach 100 sales "
    ∷ upserts no_faults "m2" 2 shop_source " Tone of Voice" preference "plain words"
    ∷ upserts no_faults "m3" 3 shop_source "Tone of Voice" preference "no jokes"
    ∷ deletes no_faults shop_source "m1"
    ∷ []

abbrev no_facts : Facts
no_facts s k = none

nothing_tracked : Tracks no_facts []
unfolding fact_at
nothing_tracked = record { keyed = tt; at = λ s k n. refl }

run_memory-Tracks_example :
    Tracks
      (run_facts plain_memories memory_calls [] no_facts)
      (run_memory plain_memories memory_calls [])
run_memory-Tracks_example =
    run_memory-Tracks plain_memories memory_calls [] no_facts nothing_tracked

abbrev sales_goal : Memory
sales_goal = record { id = "m1"; key = ""; kind = goal; text = "reach 100 sales"; created_at = 1 }

abbrev foreign_source : Source
foreign_source = record shop_source { account_id = "other" }

abbrev two_sources : List MemoryRow
two_sources =
    record {
      id = "m0";
      source = foreign_source;
      payload = none;
      created_at = "2026-01-30T00:00:00Z";
    }
    ∷ record {
      id = "m1";
      source = shop_source;
      payload = some sales_goal;
      created_at = "2026-01-31T00:00:00Z";
    }
    ∷ []

one_listed : memories false shop_source 5 two_sources ≡ ok (sales_goal ∷ [])
unfolding memories memory_source_key of_source same_source comes_first sort insert take decoded
one_listed = refl

memories-Listed_example : Listed shop_source 5 two_sources (sales_goal ∷ [])
memories-Listed_example = memories-Listed false shop_source 5 two_sources one_listed

abbrev plain_models : ModelLibrary
plain_models = record { parse_url = λ u. none; is_loopback_ip = λ s. false }

abbrev codex_session : Session Whole
codex_session = record shop_session { model = no_model; runtime = "codex"; checkpoint = "p" }

abbrev selected_session : Session Whole
selected_session = record codex_session { model = default_model_selection; checkpoint = "" }

codex_selected :
    select_execution plain_models "codex" no_model default_model_selection codex_session
    ≡ ok (true, selected_session)
unfolding select_execution normalize_model validate_model validate_oauth_model validate_codex_model
    supported_models same_model is_unsettled fits_runtime default_model_selection
codex_selected = refl

select_execution-Bound_example :
    Bound plain_models "codex" "d" codex_session (bind_execution_contract "d" selected_session)
select_execution-Bound_example =
    select_execution-Bound plain_models "codex" no_model default_model_selection "d" codex_session
      codex_selected
