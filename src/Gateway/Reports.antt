-- ===== src/Gateway/Reports.antt =====
-- The two ways to validate a transaction against its pack.
use finest_vx.Prelude.{String, ◌≡◌, refl, ok}
use finest_vx.Core.Codec.{Codec}
use finest_vx.Core.Engine.{Engine}
use finest_vx.Core.Errors.{Error}
use finest_vx.Core.Types.{Book, JournalTransaction}
use finest_vx.Legislation.Registry.{resolve}
use finest_vx.Legislation.Subinterpreters.{Pack, default_packs, IsResult, validate_result}
use finest_vx.Persistence.Load.{load_book}
use finest_vx.Persistence.Platform.{Platform}
use finest_vx.Persistence.Store.{Store}
use finest_vx.Gateway.{
  validate_transaction, validate_transaction_isolated, validate_legislative_transaction,
}

module _ (e : Engine) (p : Platform) (k : Codec) (remote_error : Error → Error) where
  -- For a book of the default registry the report of the process is the report of the subinterpreter,
  -- if the pack's result comes from its constructors.
  pub validate_transaction-isolated :
      (code : String) (t : JournalTransaction) (s : Store) (b : Book) (pack : Pack)
      → load_book e p k s.db code ≡ ok b
      → resolve e default_packs b.legislative_pack ≡ ok pack
      → IsResult e (pack b t)
      → validate_transaction e p k remote_error default_packs code t s
        ≡ validate_transaction_isolated e p k remote_error code t s
  unfolding validate_transaction validate_transaction_isolated validate_legislative_transaction
  validate_transaction-isolated code t s b pack loaded found made =
      rw (loaded, found, validate_result e remote_error b.legislative_pack pack b t found made) refl
