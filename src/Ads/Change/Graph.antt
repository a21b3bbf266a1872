-- ===== src/Ads/Change/Graph.antt =====
-- The state machine of a change.
use ad_agent.Prelude.{ℕ, suc, ◌+◌, ◌≤◌, ◌≡◌, refl, ◌↔◌, Bool, true, false, arith}
use ad_agent.Ads.Change.{
  ChangeState, staged, applying, applied, discarded, expired, failed, indeterminate, same_state,
  can_transition,
}

-- The paths of the machine: one state, or a permitted step and a path from there.
pub data PathTo : ChangeState → ChangeState → Type 0 where
  here : {s : ChangeState} → PathTo s s
  step : {s t u : ChangeState} → can_transition s t ≡ true → PathTo t u → PathTo s u

-- Whether a state is the end of a change.
abbrev pub is_final : ChangeState → Bool
is_final applied = true
is_final discarded = true
is_final expired = true
is_final failed = true
is_final _ = false

-- How many steps a state has left at most.
abbrev pub steps_left : ChangeState → ℕ
steps_left staged = 3
steps_left applying = 2
steps_left indeterminate = 1
steps_left _ = 0

abbrev pub path_length : {s t : ChangeState} → PathTo s t → ℕ
path_length here = 0
path_length (step h p) = suc (path_length p)

step_down : (s t : ChangeState) → can_transition s t ≡ true → suc (steps_left t) ≤ steps_left s
unfolding can_transition same_state
step_down staged t h = ground arith
step_down applying t h = ground arith
step_down indeterminate t h = ground arith
step_down _ t h = ground arith

-- A path takes as many steps as its start has left at most: no change ever runs in a circle, and at
-- most three transitions take it to its end.
pub path-bounded :
    {s t : ChangeState} (p : PathTo s t) → path_length p + steps_left t ≤ steps_left s
path-bounded here = omega arith
path-bounded {s} (step {t = t} h p) = omega (arith, step_down s t h, path-bounded p)

-- A state is final exactly if the machine lets no step leave it.
pub is_final-no_step :
    (s : ChangeState) → (is_final s ≡ true) ↔ ((t : ChangeState) → can_transition s t ≡ false)
unfolding can_transition same_state
is_final-no_step staged = (λ h. cc h, λ h. cc (h applying))
is_final-no_step applying = (λ h. cc h, λ h. cc (h applied))
is_final-no_step indeterminate = (λ h. cc h, λ h. cc (h applied))
is_final-no_step _ = (λ h t. refl, λ h. refl)
