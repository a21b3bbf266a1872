-- ===== src/Service/Sending.antt =====
-- How often a method sends: which parts of the service leave the tables alone, and how many
-- mutating calls they make for which change.
use ad_agent.Prelude.{
  ℕ, suc, ◌+◌, ◌≤◌, String, ◌==◌, ◌≡◌, refl, ◌∙◌, Bool, true, false, List, [], ◌∷◌, ◌++◌, arith,
  if◌then◌else◌,
}
use ad_agent.Prelude.Result.{Result, ok, err}
use ad_agent.Service.Exec.{Exec, ◌>>=◌, proceed, pure, fail, raise}
use ad_agent.Service.Exec.Ensures.{
  Ensures, Order, Ensures-pure, Ensures-fail, Ensures-raise, Ensures-if, Ensures-bind,
}
use ad_agent.Service.Platform.{Env, Sent, Mutation, ask, call, attempt, send}

module _ {D : Type 0} where
  -- How many mutating calls were made for a change.
  unfoldable pub sends : String → List (Sent D) → ℕ
  sends k [] = 0
  sends k (x ∷ xs) = let rest = sends k xs in if x.change_id == k then suc rest else rest

  pub sends-append :
      (k id : String) (m : Mutation D) (xs : List (Sent D))
      → sends k (xs ++ record { change_id = id; mutation = m } ∷ [])
        ≡ sends k xs + (if id == k then 1 else 0)
  unfolding sends
  sends-append k id m [] = ground arith
  sends-append k id m (x ∷ xs) = ground (arith, sends-append k id m xs)

module _ {D W : Type 0} where
  -- Nothing is written and nothing is sent.
  pub record Quiet (e e' : Env D W) : Type 0 where
    pub tables : e'.tables ≡ e.tables
    pub sent : e'.sent ≡ e.sent

  pub Quiet-order : Order Quiet
  Quiet-order = record {
    here = λ e. record { tables = refl; sent = refl };
    then_to = λ e f g h k. record { tables = k.tables ∙ h.tables; sent = k.sent ∙ h.sent };
  }

  -- Nothing is written, and at most one mutating call is made, for the change `id`.
  pub record OneSend (id : String) (e e' : Env D W) : Type 0 where
    pub tables : e'.tables ≡ e.tables
    pub sent : (k : String) → sends k e'.sent ≤ sends k e.sent + (if id == k then 1 else 0)

  pub OneSend-of_Quiet : {id : String} {e e' : Env D W} → Quiet e e' → OneSend id e e'
  OneSend-of_Quiet {id} {e} {e'} h = record {
    tables = h.tables;
    sent = λ k. rw h.sent (omega arith);
  }

module _ {D W A : Type 0} where
  pub ask-Quiet : (f : W → A × W) → Ensures Quiet (ask {D = D} f)
  unfolding ask
  ask-Quiet f = record { at = λ e. record { tables = refl; sent = refl } }

  pub call-Quiet : (f : W → Result A × W) → Ensures Quiet (call {D = D} f)
  unfolding call
  call-Quiet f = record { at = λ e. record { tables = refl; sent = refl } }

  pub attempt-Quiet : (f : W → Result A × W) → Ensures Quiet (attempt {D = D} f)
  unfolding attempt
  attempt-Quiet f = record { at = λ e. record { tables = refl; sent = refl } }

  pub send-OneSend :
      (id : String) (m : Mutation D) (f : W → A × W) → Ensures (OneSend id) (send id m f)
  unfolding send
  send-OneSend id m f = record {
    at = λ e. record { tables = refl; sent = λ k. rw sends-append (omega arith) };
  }

  pub Quiet-OneSend :
      (id : String) {m : Exec (Env D W) A} → Ensures Quiet m → Ensures (OneSend id) m
  Quiet-OneSend id h = record { at = λ e. OneSend-of_Quiet (h.at e) }

module _ {D W A : Type 0} where
  pub Quiet-pure : (a : A) → Ensures (Quiet {D = D} {W = W}) (pure a)
  Quiet-pure = Ensures-pure Quiet-order

  pub Quiet-fail : (x : String) → Ensures (Quiet {D = D} {W = W}) (fail {A = A} x)
  Quiet-fail = Ensures-fail Quiet-order

  pub Quiet-raise : (r : Result A) → Ensures (Quiet {D = D} {W = W}) (raise r)
  Quiet-raise = Ensures-raise Quiet-order

  pub Quiet-if :
      (b : Bool) (m n : Exec (Env D W) A)
      → Ensures Quiet m
      → Ensures Quiet n
      → Ensures Quiet (if b then m else n)
  Quiet-if b m n h k = Ensures-if Quiet-order b m n (λ _. h) (λ _. k)

  pub OneSend-if :
      (id : String) (b : Bool) (m n : Exec (Env D W) A)
      → Ensures (OneSend id) m
      → Ensures (OneSend id) n
      → Ensures (OneSend id) (if b then m else n)
  OneSend-if id true m n h k = h
  OneSend-if id false m n h k = k

  -- A branch that only returns.
  pub OneSend-pure : (id : String) (a : A) → Ensures (OneSend {D = D} {W = W} id) (pure a)
  OneSend-pure id a = Quiet-OneSend id (Quiet-pure a)

module _ {D W A B : Type 0} where
  pub Quiet-bind :
      (m : Exec (Env D W) A) (k : A → Exec (Env D W) B)
      → Ensures Quiet m
      → ((a : A) → Ensures Quiet (k a))
      → Ensures Quiet (m >>= k)
  Quiet-bind = Ensures-bind Quiet-order

  -- A quiet part before or after leaves the one call the only one.
  pub Quiet-then_send :
      (id : String) (m : Exec (Env D W) A) (k : A → Exec (Env D W) B)
      → Ensures Quiet m
      → ((a : A) → Ensures (OneSend id) (k a))
      → Ensures (OneSend id) (m >>= k)
  unfolding ◌>>=◌
  Quiet-then_send id m k h f = record { at = λ e. after (m e).0 (m e).1 (h.at e) k f }
    where
      after :
          {e : Env D W} (r : Result A) (e' : Env D W)
          → Quiet e e'
          → (k : A → Exec (Env D W) B) → ((a : A) → Ensures (OneSend id) (k a))
          → OneSend id e (proceed r k e').1
      after {e} (ok a) e' q k f =
          let s = (f a).at e' in
          record { tables = s.tables ∙ q.tables; sent = λ j. rw (← q.sent) (s.sent j) }
      after (err x) e' q k f = OneSend-of_Quiet q

  pub send_then-Quiet :
      (id : String) (m : Exec (Env D W) A) (k : A → Exec (Env D W) B)
      → Ensures (OneSend id) m
      → ((a : A) → Ensures Quiet (k a))
      → Ensures (OneSend id) (m >>= k)
  unfolding ◌>>=◌
  send_then-Quiet id m k h f = record { at = λ e. after (m e).0 (m e).1 (h.at e) k f }
    where
      after :
          {e : Env D W} (r : Result A) (e' : Env D W)
          → OneSend id e e'
          → (k : A → Exec (Env D W) B) → ((a : A) → Ensures Quiet (k a))
          → OneSend id e (proceed r k e').1
      after {e} (ok a) e' s k f =
          let q = (f a).at e' in
          record { tables = q.tables ∙ s.tables; sent = λ j. rw q.sent (s.sent j) }
      after (err x) e' s k f = s

pub ruleset quiet_rules = (
  Quiet-pure, Quiet-fail, Quiet-raise, Quiet-if, Quiet-bind, ask-Quiet, call-Quiet, attempt-Quiet,
)
