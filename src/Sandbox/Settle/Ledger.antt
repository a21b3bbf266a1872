-- ===== src/Sandbox/Settle/Ledger.antt =====
-- The ledger after a settlement.
use ad_agent.Prelude.{String, ◌==◌, ◌≡◌, Option, none, some, List, [], ◌∷◌, if◌then◌else◌}
use Prim.Native.String
use ad_agent.Ads.Decimal.{Decimal}
use ad_agent.Sandbox.Settle.{BillingTransaction, Books}

module _ {D : Type 0} ⦃dec : Decimal D⦄ where
  -- The amount that a transaction of an id stands at, the first if there are several.
  unfoldable pub amount_of : String → List (BillingTransaction D) → Option D
  amount_of k [] = none
  amount_of k (t ∷ rest) = if t.id == k then some t.amount else amount_of k rest

  abbrev pub less_spend : D → Option D → D
  less_spend spend none = dec.neg spend
  less_spend spend (some a) = dec.minus a spend

  -- The books `b'` are the books `b` after a spend that is charged to the transaction `id`.
  pub record Charged (id : String) (spend : D) (b b' : Books D) : Type 0 where
    pub cash : b'.balance.cash ≡ dec.minus b.balance.cash spend
    pub available : b'.balance.available ≡ dec.minus b.balance.available spend
    pub voucher : b'.balance.voucher ≡ b.balance.voucher
    pub amounts :
        (k : String)
        → amount_of k b'.transactions ≡ (
            if id == k
            then some (less_spend spend (amount_of k b.transactions))
            else amount_of k b.transactions)
