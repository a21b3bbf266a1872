-- ===== src/Sandbox/Settle.antt =====
-- internal/sandbox/rules.go: settleSpend.
pub mod Ledger
use ad_agent.Prelude.{
  ℕ, String, ◌==◌, Bool, true, false, Option, none, some, List, [], ◌∷◌, if◌then◌else◌,
}
use Prim.Native.String
use ad_agent.Ads.Decimal.{Decimal, is_zero}
use ad_agent.Sandbox.Rules.{Calendar, HourFact}

pub record BillingBalance (D : Type 0) : Type 0 where
  pub account_id : String
  pub currency : String
  pub available : D
  pub cash : D
  pub voucher : D
  pub as_of : ℕ

pub record BillingTransaction (D : Type 0) : Type 0 where
  pub id : String
  pub account_id : String
  pub type : String
  pub amount : D
  pub currency : String
  pub occurred_at : ℕ
  pub status : String

-- The fields of Backend that settleSpend reads and writes.
pub record Books (D : Type 0) : Type 0 where
  pub account_id : String
  pub account_currency : String
  pub balance : BillingBalance D
  pub transactions : List (BillingTransaction D)

module _ {D : Type 0} ⦃dec : Decimal D⦄ where
  unfoldable pub spend_of : D → List (HourFact D) → D
  spend_of total [] = total
  spend_of total (f ∷ facts) = spend_of (dec.plus total f.metrics.spend) facts

  -- The loop over the transactions: the first of the day takes the spend, or a new one is appended.
  unfoldable pub charge :
      BillingTransaction D → D → List (BillingTransaction D) → List (BillingTransaction D)
  charge new spend [] = new ∷ []
  charge new spend (t ∷ rest) =
      let charged = charge new spend rest in
      if t.id == new.id
      then record t { amount = dec.minus t.amount spend; occurred_at = new.occurred_at } ∷ rest
      else t ∷ charged

  module _ (cal : Calendar D) where
    abbrev pub spent : ℕ → D → Books D → Books D
    spent at spend b = record b {
      balance = record b.balance {
        cash = dec.minus b.balance.cash spend;
        available = dec.minus b.balance.available spend;
        as_of = at;
      };
      transactions =
          charge
            (record {
              id = String.◌++◌ "delivery/" (cal.day at);
              account_id = b.account_id;
              type = "AD_SPEND";
              amount = dec.neg spend;
              currency = b.account_currency;
              occurred_at = at;
              status = "SETTLED";
            })
            spend b.transactions;
    }

    -- settleSpend
    unfoldable pub settle_spend : ℕ → List (HourFact D) → Books D → Books D
    unfolding spend_of charge
    settle_spend at facts b =
        let spend = spend_of (dec.of_int 0) facts in if is_zero spend then b else spent at spend b
