-- ===== src/Legislation/Subinterpreters.antt =====
-- legislation/subinterpreters.py, the constructors of legislation/protocols.py that rebuild a result,
-- and `create_default_pack_registry`. The pool of interpreters is a library's: `remote_error` says what
-- an exception inside an interpreter becomes in the caller.
use finest_vx.Prelude.{String, ◌≡◌, refl, List, [], ◌∷◌, All, ok, err, ◌>>=◌}
use finest_vx.Core.Engine.{Engine}
use finest_vx.Core.Errors.{Error, Result}
use finest_vx.Core.Types.{Book, JournalTransaction}
use finest_vx.Legislation.Latvia
use finest_vx.Legislation.Registry.{resolve}
use finest_vx.Persistence.Store.Results.{LegislativeIssue, LegislativeValidationResult}

-- `ILegislativePack.validate_transaction`
abbrev pub Pack : Type 0
Pack = Book → JournalTransaction → LegislativeValidationResult

abbrev pub Packs : Type 0
Packs = List (String × Pack)

-- The registry with the one built-in pack.
abbrev pub default_packs : Packs
default_packs = ("lv.standard.2026", Latvia.validate_transaction "lv.standard.2026") ∷ []

module _ (e : Engine) where
  -- LegislativeIssue. The index, a number already, passes its check.
  unfoldable pub issue_init : LegislativeIssue → Result LegislativeIssue
  issue_init i = do
    code ← e.require_non_empty_str i.code
    message ← e.require_non_empty_str i.message
    ok (record i { code = code; message = message })

  unfoldable pub rebuild_issues : List LegislativeIssue → Result (List LegislativeIssue)
  rebuild_issues [] = ok []
  rebuild_issues (i ∷ rest) = do
    first ← issue_init i
    others ← rebuild_issues rest
    ok (first ∷ others)

  -- LegislativeValidationResult
  unfoldable pub result_init : LegislativeValidationResult → Result LegislativeValidationResult
  result_init r = do code ← e.require_non_empty_str r.pack_code; ok (record r { pack_code = code })

  -- What crosses the interpreters is the code and the cells of the issues.
  unfoldable pub validate_in_subinterpreter :
      String → Book → JournalTransaction → Result LegislativeValidationResult
  validate_in_subinterpreter code b t = do pack ← resolve e default_packs code; ok (pack b t)

  abbrev pub remote : {A : Type 0} → (Error → Error) → Result A → Result A
  remote remote_error (ok a) = ok a
  remote remote_error (err x) = err (remote_error x)

  unfoldable pub validate :
      (Error → Error) → String → Book → JournalTransaction → Result LegislativeValidationResult
  unfolding validate_in_subinterpreter
  validate remote_error code b t = do
    raw ← remote remote_error (validate_in_subinterpreter code b t)
    issues ← rebuild_issues raw.issues
    result_init (record raw { issues = issues })

  -- A result as its constructors return it.
  abbrev pub IsResult : LegislativeValidationResult → Type 0
  IsResult r = All (λ i. issue_init i ≡ ok i) r.issues × (result_init r ≡ ok r)

  rebuild_issues_same :
      (issues : List LegislativeIssue)
      → All (λ i. issue_init i ≡ ok i) issues
      → rebuild_issues issues ≡ ok issues
  unfolding rebuild_issues
  rebuild_issues_same [] h = refl
  rebuild_issues_same (i ∷ rest) (h, hs) = rw (h, rebuild_issues_same rest hs) refl

  -- The runner returns what the pack returns, if that comes from the constructors.
  pub validate_result :
      (remote_error : Error → Error) (code : String) (pack : Pack) (b : Book)
      (t : JournalTransaction)
      → resolve e default_packs code ≡ ok pack
      → IsResult (pack b t)
      → validate remote_error code b t ≡ ok (pack b t)
  unfolding validate validate_in_subinterpreter
  validate_result remote_error code pack b t found (issues, made) =
      rw (found, rebuild_issues_same (pack b t).issues issues) made
