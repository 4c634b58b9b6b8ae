-- ===== src/Core/Entities/Normal.antt =====
-- core/models.py: what `__post_init__` returns it accepts unchanged, as `dataclasses.replace`
-- relies on when it runs it again.
use finest_vx.Prelude.{String, ◌≡◌, true, arith, ok}
use finest_vx.Core.Engine.{Engine, EngineLaws}
use finest_vx.Core.Types.{Account, LedgerEntry}
use finest_vx.Core.Entities.{normalize_currency, account_init, entry_init}

module _ (e : Engine) (laws : EngineLaws e) where
  normalize_currency-valid :
      (c d : String) → normalize_currency e c ≡ ok d → e.is_valid_currency_code d ≡ true
  unfolding normalize_currency
  normalize_currency-valid c d h = ground arith

  pub normalize_currency_idem :
      (c d : String) → normalize_currency e c ≡ ok d → normalize_currency e d ≡ ok d
  unfolding normalize_currency
  normalize_currency_idem c d h =
      let valid = normalize_currency-valid c d h in
      rw (laws.currency_stripped d valid, laws.currency_upper d valid, valid)

  -- An account that the constructor returns is returned unchanged when it is constructed again.
  pub account_init_idem : (a b : Account) → account_init e a ≡ ok b → account_init e b ≡ ok b
  unfolding account_init
  account_init_idem a b h = ground (
    arith,
    laws.require_idem a.code b.code,
    laws.require_idem a.name b.name,
    normalize_currency_idem a.currency b.currency,
    laws.optional_idem a.parent_code b.parent_code,
  )

  -- A ledger entry that the constructor returns is returned unchanged when it is constructed again,
  -- for an engine that keeps the laws.
  pub entry_init_idem : (a b : LedgerEntry) → entry_init e a ≡ ok b → entry_init e b ≡ ok b
  unfolding entry_init
  entry_init_idem a b h = ground (
    arith,
    laws.require_idem a.account_code b.account_code,
    normalize_currency_idem a.currency b.currency,
    laws.optional_idem a.description b.description,
    laws.tax_rate_idem a.tax_rate b.tax_rate,
  )
