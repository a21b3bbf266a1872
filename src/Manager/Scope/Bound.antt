-- ===== src/Manager/Scope/Bound.antt =====
-- internal/manager/scope.go: the bindings of a scope that NewScope has made.
use ad_agent.Prelude.{
  ℕ, ◌+◌, ◌≤◌, String, eq_iff, ◌≡◌, ◌≢◌, refl, true, false, Option, none, some, List, [], ◌∷◌,
  length, is_some, arith,
}
use ad_agent.Prelude.Result.{Result, ok, err}
use ad_agent.Store.Session.{seen}
use ad_agent.Service.Exec.{Exec}
use ad_agent.Service.Exec.Triple.{
  Triple, Post, Triple-result, Triple-pure, Triple-reject, Triple-bind, Triple-weaken,
}
use ad_agent.Service.Platform.{Env}
use ad_agent.Sandbox.Backend.{valid_environment}
use ad_agent.Manager.Scope.{max_accounts, Scope, Binding, wrong_account, bind_all, new_scope}

module _ {D W : Type 0} where
  -- Each account once, under its id.
  abbrev pub Once : List (String × Binding D W) → Type 0
  Once [] = Unit
  Once ((k, b) ∷ bs) = (k ≢ "") × (seen k bs ≡ none) × Once bs

  pub record IsBound (n : ℕ) (s : Scope D W) : Type 0 where
    pub valid : valid_environment s.id ≡ true
    pub named : s.name ≢ ""
    pub once : Once s.bindings
    pub all_bound : length s.bindings ≡ n
    pub some_bound : 1 ≤ n
    pub at_most : n ≤ max_accounts

  abbrev Always : Env D W → Type 0
  Always e = Unit

  any-Post : {A : Type 0} (r : Result A) (e : Env D W) → Post {S = Env D W} (λ (a : A) e. Unit) r e
  any-Post (ok a) e = tt
  any-Post (err x) e = tt

  anything : {A : Type 0} (m : Exec (Env D W) A) → Triple Always m (λ a e. Unit)
  anything m = record { at = λ e h. any-Post (m e).0 (m e).1 }

  unbound : (o : Option (Binding D W)) → is_some o ≡ false → o ≡ none
  unbound none h = refl
  unbound (some b) h = cc h

  bind_all-Once :
      (bs : List (Binding D W)) (done : List (String × Binding D W))
      → Once done
      → Triple Always
          (bind_all bs done)
          (λ made e. Once made × (length made ≡ length bs + length done))
  unfolding bind_all wrong_account
  bind_all-Once [] done h = Triple-pure done (λ e u. (h, omega arith))
  bind_all-Once (b ∷ bs) done h = Triple-bind _ _ (anything _) (λ read.
      Triple-bind _ _ (anything _) (λ a. Triple-reject _ _ _ (λ right. Triple-reject _ _ _ (λ fresh.
        Triple-weaken (λ made e k. (k.0, omega (arith, k.1)))
          (bind_all-Once bs ((a.id, b) ∷ done) (
            (λ blank. ground (arith, right, blank, eq_iff a.id "")),
            unbound (seen a.id done) fresh,
            h,
          ))))))

  new_scope-Triple :
      (id name : String) (bindings : List (Binding D W))
      → Triple Always (new_scope id name bindings) (λ s e. IsBound (length bindings) s)
  unfolding new_scope
  new_scope-Triple id name bindings = Triple-reject _ _ _ (λ asked.
      Triple-bind _ _ (bind_all-Once bindings [] tt) (λ made. Triple-pure _ (λ e h. record {
        valid = ground (arith, asked);
        named = λ blank. ground (arith, asked, blank, eq_iff name "");
        once = h.0;
        all_bound = omega (arith, h.1);
        some_bound = ground (arith, asked);
        at_most = ground (arith, asked);
      })))

  -- A scope that NewScope makes has a valid id and a name, 1 to 50 bindings, as many as were asked
  -- for, and each of them under an account id of its own, which is not empty.
  pub new_scope-IsBound :
      (id name : String) (bindings : List (Binding D W)) (e : Env D W) {s : Scope D W}
      → (new_scope id name bindings e).0 ≡ ok s
      → IsBound (length bindings) s
  new_scope-IsBound id name bindings e eq =
      Triple-result (λ s e. IsBound (length bindings) s) (new_scope-Triple id name bindings) e tt eq
