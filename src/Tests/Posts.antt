-- ===== src/Tests/Posts.antt =====
-- Posting and reversing in the store with the small book, and the reports on its sale.
use finest_vx.Prelude.{◌≡◌, refl, false, some, [], ◌∷◌}
use finest_vx.Core.Errors.{Error}
use finest_vx.Gateway.{
  post_transaction, post_reversal, validate_transaction, validate_transaction_isolated,
}
use finest_vx.Gateway.Posting.{Posts, post_transaction-Posts, post_reversal-Posts}
use finest_vx.Gateway.Reports.{validate_transaction-isolated}
use finest_vx.Legislation.Latvia
use finest_vx.Legislation.Subinterpreters.{default_packs, issue_init, result_init}
use finest_vx.Persistence.Store.Reversals.{append_reversal}
use finest_vx.Persistence.Store.Writes
use finest_vx.Tests.Codecs.{codec}
use finest_vx.Core.Decimal.{finite}
use finest_vx.Prelude.Int.{negsuc}
use finest_vx.Core.Types.{JournalTransaction}
use finest_vx.Tests.Fixtures.{received, sold, engine, platform, sale, context}
use finest_vx.Tests.Loads.{stored, stored-runs}
use finest_vx.Tests.Payloads.{full_book}

abbrev remote_error : Error → Error
remote_error x = x

post_transaction-Posts_example :
    Posts engine platform codec remote_error "B1" context "T1"
      (Writes.append_transaction platform codec "B1" sale context stored)
      (post_transaction engine platform codec remote_error "B1" sale context stored)
post_transaction-Posts_example =
    post_transaction-Posts engine platform codec remote_error "B1" context sale stored

post_reversal-Posts_example :
    Posts engine platform codec remote_error "B1" context "R1"
      (append_reversal engine platform codec "B1" "T1" "R1" context stored)
      (post_reversal engine platform codec remote_error "B1" "T1" "R1" context stored)
post_reversal-Posts_example =
    post_reversal-Posts engine platform codec remote_error "B1" context "T1" "R1" stored

-- An entry with a rate that the pack does not know, so that there is an issue to rebuild.
abbrev mistaxed_sale : JournalTransaction
mistaxed_sale = record sale {
  entries = record received { tax_rate = some (finite false 5 (negsuc 1)) } ∷ sold ∷ [];
}

validate_transaction-isolated_example :
    validate_transaction engine platform codec remote_error default_packs "B1" mistaxed_sale stored
    ≡ validate_transaction_isolated engine platform codec remote_error "B1" mistaxed_sale stored
unfolding finest_vx.Legislation.Registry.resolve Latvia.validate_transaction Latvia.rate_issues
    Latvia.has_wrong_rate result_init issue_init finest_vx.Core.Decimal.dec_eq
    finest_vx.Prelude.Int.◌-ℤ◌
validate_transaction-isolated_example =
    validate_transaction-isolated engine platform codec remote_error "B1" mistaxed_sale stored
      full_book (Latvia.validate_transaction "lv.standard.2026") stored-runs.0 refl
      ((refl, tt), refl)
