-- ===== src/Store/Leases/Exclusion.antt =====
-- A lease has one holder at a time.
use ad_agent.Prelude.{
  ℕ, String, ◌==◌, eq_iff, eq_refl, ◌≡◌, refl, ap, sym, ◌∙◌, inl, inr, Bool, true, false, not,
  Option, none, some, List, [], ◌∷◌, ltb, arith, Bool-cases, if◌then◌else◌,
}
use ad_agent.Prelude.Result.{Result, ok, err}
use ad_agent.Store.Tables.{LeaseRow}
use ad_agent.Store.Leases.{unix, take_lease, delete_lease, lease, release, keep}

-- The row of a lease.
unfoldable pub holder : String → List LeaseRow → Option LeaseRow
holder id [] = none
holder id (l ∷ ls) = if l.id == id then some l else holder id ls

-- Whether a holder's time has not passed at a second.
abbrev pub is_held : Option LeaseRow → ℕ → Bool
is_held none now = false
is_held (some l) now = not (ltb l.until_unix now)

abbrev pub Outcome : String → String → ℕ → List LeaseRow → ℕ → Result (List LeaseRow) → Type 0
Outcome id owner until ls now (err e) = (e ≡ "session_busy") × (is_held (holder id ls) now ≡ true)
Outcome id owner until ls now (ok ls') =
    (is_held (holder id ls) now ≡ false)
    × (holder id ls' ≡ some (record { id = id; owner = owner; until_unix = until }))
    × ((k : String) → ¬ (k ≡ id) → holder k ls' ≡ holder k ls)

kept :
    (id owner : String) (until now : ℕ) (l : LeaseRow) (ls : List LeaseRow)
    (r : Result (List LeaseRow))
    → (l.id == id) ≡ false
    → Outcome id owner until ls now r
    → Outcome id owner until (l ∷ ls) now (keep l r)
unfolding holder keep
kept id owner until now l ls (err e) h o = (o.0, rw h o.1)
kept id owner until now l ls (ok ls') h o = (rw h o.0, rw h o.1, λ k n. ground (arith, o.2 k n))

taken :
    (id owner : String) (until now : ℕ) (l : LeaseRow) (ls : List LeaseRow) (b : Bool)
    → (l.id == id) ≡ true
    → ltb l.until_unix now ≡ b
    → Outcome id owner until
        (l ∷ ls)
        now
        (if b then ok (record l { owner = owner; until_unix = until } ∷ ls) else err "session_busy")
unfolding holder
taken id owner until now l ls false h b = (refl, rw h (rw b refl))
taken id owner until now l ls true h b = (
  rw h (rw b refl),
  rw (h, (eq_iff l.id id).0 h) refl,
  λ k n. ground (arith, eq_iff l.id id, eq_iff l.id k),
)

take_lease-Outcome :
    (id owner : String) (until now : ℕ) (ls : List LeaseRow)
    → Outcome id owner until ls now (take_lease id owner until now ls)
unfolding take_lease holder
take_lease-Outcome id owner until now [] =
    (refl, rw (eq_refl id) refl, λ k n. ground (arith, eq_iff id k))
take_lease-Outcome id owner until now (l ∷ ls) = elim (Bool-cases (l.id == id)) [
  | inl same ↦ rw same (taken id owner until now l ls _ same refl)
  | inr other ↦
      rw other (kept id owner until now l ls _ other (take_lease-Outcome id owner until now ls))
]

-- Lease, when the database answers: it takes the lease if nobody holds it at the second of `now`,
-- and is then the holder until the given second, with every other lease as it was; otherwise it
-- fails with session_busy.
pub lease-Outcome :
    (id owner : String) (until now : ℕ) (ls : List LeaseRow)
    → Outcome id owner (unix until) ls (unix now) (lease false id owner until now ls)
unfolding lease
lease-Outcome id owner until now ls = take_lease-Outcome id owner (unix until) (unix now) ls

-- The id is the key of the table.
abbrev pub Unique : List LeaseRow → Type 0
Unique [] = Unit
Unique (l ∷ ls) = (holder l.id ls ≡ none) × Unique ls

pub record Released (id owner : String) (before after : List LeaseRow) : Type 0 where
  pub freed : (l : LeaseRow) → holder id before ≡ some l → l.owner ≡ owner → holder id after ≡ none
  pub left :
      (l : LeaseRow) → holder id before ≡ some l → ¬ (l.owner ≡ owner) → holder id after ≡ some l
  pub others : (k : String) → ¬ (k ≡ id) → holder k after ≡ holder k before

delete_lease-none :
    (id owner k : String) (ls : List LeaseRow)
    → holder k ls ≡ none
    → holder k (delete_lease id owner ls) ≡ none
unfolding delete_lease holder
delete_lease-none id owner k [] h = h
delete_lease-none id owner k (l ∷ ls) h =
    let rest : holder k ls ≡ none → holder k (delete_lease id owner ls) ≡ none =
      delete_lease-none id owner k ls in
    ground (arith, rest, h)

delete_lease-Released :
    (id owner : String) (ls : List LeaseRow)
    → Unique ls
    → Released id owner ls (delete_lease id owner ls)
unfolding delete_lease holder
delete_lease-Released id owner [] u = record {
  freed = λ l h o. refl;
  left = λ l h n. h;
  others = λ k n. refl;
}
delete_lease-Released id owner (r ∷ ls) u =
    let rest = delete_lease-Released id owner ls u.1 in
    let gone : r.id ≡ id → holder id (delete_lease id owner ls) ≡ none =
      λ same. delete_lease-none id owner id ls (ap (λ j. holder j ls) (sym same) ∙ u.0) in
    record {
      freed =
          λ l h o. ground (arith, rest.freed l, gone, h, o, eq_iff r.id id, eq_iff r.owner owner);
      left = λ l h n. ground (arith, rest.left l, h, n, eq_iff l.owner owner);
      others = λ k n. ground (arith, rest.others k n, eq_iff r.id id, eq_iff r.id k);
    }

-- Release, when the database answers and no two leases have one id, frees the lease if the caller
-- holds it, and leaves the lease as it was if another owner holds it. No other lease changes.
pub holder-release :
    (id owner : String) (ls : List LeaseRow)
    → Unique ls
    → Released id owner ls (release false id owner ls)
unfolding release
holder-release id owner ls u = delete_lease-Released id owner ls u
