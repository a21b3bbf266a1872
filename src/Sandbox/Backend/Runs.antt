-- ===== src/Sandbox/Backend/Runs.antt =====
-- internal/sandbox: a run of the backend's calls.
use ad_agent.Prelude.{ℕ, String, ◌≡◌, Bool, true, Option, none, some, List, [], ◌∷◌, inl, inr}
use ad_agent.Prelude.Result.{Result, ok, err, Result-cases}
use ad_agent.Ads.Decimal.{Decimal}
use ad_agent.Ads.Types.{Level, Entity, WriteRequest, CreateRequest}
use ad_agent.Ads.Change.{Digests, same_version}
use ad_agent.Store.Session.{seen}
use ad_agent.Sandbox.Rules.{Calendar}
use ad_agent.Sandbox.Rules.Climb.{Climbed, climb-enough}
use ad_agent.Sandbox.Evaluate.{evaluate_rules}
use ad_agent.Sandbox.Backend.{Backend, created_entity, create, restore, write}
use ad_agent.Sandbox.Backend.Hierarchy.{Hierarchy-Levelled}
use ad_agent.Sandbox.Backend.Kept.{
  IsSound, write-IsSound, create-IsSound, restore-IsSound, evaluate-IsSound,
}

pub data BackendCall (D : Type 0) : Type 0 where
  creates : Bool → Option String → CreateRequest D → BackendCall D
  writes : Bool → WriteRequest D → BackendCall D
  restores : Entity D → BackendCall D
  evaluates : ℕ → BackendCall D

some-injective : {a b : String} → some a ≡ some b → a ≡ b
some-injective h = cc h

module _ {D : Type 0} ⦃dec : Decimal D⦄ ⦃dig : Digests D⦄ (cal : Calendar D) where
  abbrev after_create : Result (Entity D × Backend D) → Backend D → Backend D
  after_create (ok (e, b')) b = b'
  after_create (err x) b = b

  abbrev after_restore : Result (Backend D) → Backend D → Backend D
  after_restore (ok b') b = b'
  after_restore (err x) b = b

  unfoldable pub run_backend_call : BackendCall D → Backend D → Backend D
  run_backend_call (creates cancelled drawn r) b = after_create (create cancelled drawn r b) b
  run_backend_call (writes cancelled w) b = (write cancelled w b).1
  run_backend_call (restores e) b = after_restore (restore e b) b
  run_backend_call (evaluates at) b = record b { rules = evaluate_rules cal at b.rules }

  unfoldable pub run_backend : List (BackendCall D) → Backend D → Backend D
  run_backend [] b = b
  run_backend (c ∷ cs) b = run_backend cs (run_backend_call c b)

  -- What the calls rely on: the digits drawn for a new entity make an id that is new, and the
  -- digests of a restored entity and of the one it is compared with do not collide.
  abbrev pub Relies : BackendCall D → Backend D → Type 0
  Relies (creates cancelled none r) b = Unit
  Relies (creates cancelled (some digits) r) b =
      seen (created_entity b.account.id digits r).id b.rules.entities ≡ none
  Relies (writes cancelled w) b = Unit
  Relies (restores e) b =
      (old : Entity D)
      → seen e.id b.rules.entities ≡ some old
      → same_version (record old { budget = e.budget; status = e.status }) e ≡ true
      → record old { budget = e.budget; status = e.status } ≡ e
  Relies (evaluates at) b = Unit

  abbrev pub AllRely : List (BackendCall D) → Backend D → Type 0
  AllRely [] b = Unit
  AllRely (c ∷ cs) b = Relies c b × AllRely cs (run_backend_call c b)

  is_fresh :
      (cancelled : Bool) (drawn : Option String) (r : CreateRequest D) (b : Backend D)
      → Relies (creates cancelled drawn r) b
      → (digits : String) → drawn ≡ some digits
      → seen (created_entity b.account.id digits r).id b.rules.entities ≡ none
  is_fresh cancelled none r b k digits h = cc h
  is_fresh cancelled (some d) r b k digits h =
      let same : d ≡ digits = some-injective h in rw (← same) k

  call-IsSound :
      (c : BackendCall D) (b : Backend D) → Relies c b → IsSound b → IsSound (run_backend_call c b)
  unfolding run_backend_call
  call-IsSound (creates cancelled drawn r) b k h =
      elim (Result-cases (create cancelled drawn r b)) [
        | inl (e, failed) ↦ rw failed h
        | inr ((e, b'), done) ↦
            rw done (create-IsSound cancelled drawn r b done (is_fresh cancelled drawn r b k) h)
      ]
  call-IsSound (writes cancelled w) b k h = write-IsSound cancelled w b h
  call-IsSound (restores e) b k h = elim (Result-cases (restore e b)) [
    | inl (x, failed) ↦ rw failed h
    | inr (b', done) ↦ rw done (restore-IsSound e b done k h)
  ]
  call-IsSound (evaluates at) b k h = evaluate-IsSound cal at b h

  -- Through any run of creations, writes, restored entities and evaluations of the rules, the
  -- entities of an account stay a hierarchy of campaigns, ad groups and ads of that account, so that
  -- the search for the parent of an entity at a level ends within the entity's depth.
  pub run_backend-IsSound :
      (cs : List (BackendCall D)) (b : Backend D)
      → AllRely cs b
      → IsSound b
      → IsSound (run_backend cs b)
        × ((k : String) (e : Entity D) (level : Level)
            → seen k (run_backend cs b).rules.entities ≡ some e
            → Climbed (run_backend cs b).rules.entities e level)
  unfolding run_backend
  run_backend-IsSound [] b k h = (
    h,
    λ j e level.
        climb-enough b.rules.entities (Hierarchy-Levelled b.account.id b.rules.entities h) j e
          level,
  )
  run_backend-IsSound (c ∷ cs) b k h =
      run_backend-IsSound cs (run_backend_call c b) k.1 (call-IsSound c b k.0 h)
