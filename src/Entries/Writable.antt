-- ===== src/Entries/Writable.antt =====
-- The request of a new placement that is writable.
use kingspin.Prelude.{
  ◌≡◌, refl, sym, ap, ◌∙◌, true, String, Option, none, some, Bool-cases, inl, inr,
}
use kingspin.Prelude.Lists.{some_eq}
use kingspin.Store.Tables.{Category}
use kingspin.Entries.{PlacementArgs}
use kingspin.Entries.Sql.{coalesce}
use kingspin.Entries.Request.{
  member, RequestRows, target_round, target_wallet, round_id_of, wallet_id_of,
}
use kingspin.Entries.Statement.{Writable, writable_request, may_write, writable_of}

-- The parts of `writable_request`, for a request without an earlier transaction.
pub record IsWritable (args : PlacementArgs) (rows : RequestRows) (w : Writable) : Type 0 where
  pub category : Category
  pub category_is : rows.category ≡ some category
  pub limit_is : w.max_entry_amount ≡ category.max_entry_amount
  pub round_is : round_id_of rows.open_round ≡ some w.round_id
  pub wallet_is : wallet_id_of rows.wallet ≡ some w.wallet_account_id
  pub allowed : may_write args rows ≡ true

writable-parts :
    (args : PlacementArgs) (rows : RequestRows) (r v : Option String) (c : Option Category)
    (w : Writable)
    → round_id_of rows.open_round ≡ r
    → wallet_id_of rows.wallet ≡ v
    → rows.category ≡ c
    → may_write args rows ≡ true
    → writable_of args rows r v c ≡ some w
    → IsWritable args rows w
writable-parts args rows (some r) (some v) (some c) w at_r at_v at_c allowed h = record {
  category = c;
  category_is = at_c;
  limit_is = sym (ap (λ (x : Writable). x.max_entry_amount) (some_eq h));
  round_is = at_r ∙ ap (λ (x : Writable). some x.round_id) (some_eq h);
  wallet_is = at_v ∙ ap (λ (x : Writable). some x.wallet_account_id) (some_eq h);
  allowed = allowed;
}
writable-parts args rows none v c w at_r at_v at_c allowed h = cc h
writable-parts args rows (some r) none c w at_r at_v at_c allowed h = cc h
writable-parts args rows (some r) (some v) none w at_r at_v at_c allowed h = cc h

pub writable-IsWritable :
    (args : PlacementArgs) (rows : RequestRows) (w : Writable)
    → rows.transaction ≡ none
    → writable_request args rows ≡ some w
    → IsWritable args rows w
unfolding writable_request
writable-IsWritable args rows w missing h = elim (Bool-cases (may_write args rows)) [
  | inr f ↦ cc (rw f at h)
  | inl t ↦
      writable-parts args rows (target_round rows.transaction rows.open_round) (target_wallet rows)
        rows.category w (sym (ap (λ t. target_round t rows.open_round) missing))
        (sym (ap (λ t. coalesce (member t "walletAccountId") (wallet_id_of rows.wallet)) missing))
        refl t (rw t at h)
]
