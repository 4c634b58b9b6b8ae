-- ===== src/Persistence/Store/Results.antt =====
-- persistence/store.py: `append_legislative_result`, and the result types of
-- legislation/protocols.py that it stores.
use finest_vx.Prelude.{ℕ, suc, String, Option, none, some, List, [], ◌∷◌, ◌++◌, ok, ◌≡◌}
use finest_vx.Prelude.Int.{pos}
use finest_vx.Core.Errors.{Result}
use finest_vx.Core.Value.{Value, null, int, str, list, mapping, end, field, to_items}
use finest_vx.Persistence.Platform.{Platform}
use finest_vx.Persistence.Rows.{Database, AuditContext}
use finest_vx.Persistence.Schema.{colon, max_seq}
use finest_vx.Persistence.Store.{Write, execute_write}

pub record LegislativeIssue : Type 0 where
  pub code : String
  pub message : String
  pub entry_index : Option ℕ

pub record LegislativeValidationResult : Type 0 where
  pub pack_code : String
  pub issues : List LegislativeIssue

abbrev pub index_cell : Option ℕ → Value
index_cell none = null
index_cell (some i) = int (pos i)

abbrev pub issue_payload : LegislativeIssue → Value
issue_payload i = mapping (
    field "code" (str i.code)
      (field "message" (str i.message) (field "entry_index" (index_cell i.entry_index) end)))

module _ (p : Platform) where
  -- `json.dumps` sorts the keys.
  abbrev pub result_json : String → String → LegislativeValidationResult → String
  result_json book reference r = p.json_dumps (
      mapping (
        field "book_code" (str book) (
          field "transaction_reference" (str reference) (
            field "pack_code" (str r.pack_code)
              (field "issues" (list (to_items issue_payload r.issues)) end)))))

  -- One row of the audit log, which no trigger watches.
  abbrev pub with_result :
      String → String → LegislativeValidationResult → AuditContext → Database → Database
  with_result book reference r ctx db = record db {
    audit_log =
        db.audit_log
        ++ record {
          seq = suc (max_seq db.audit_log);
          table_name = "legislative_validation";
          operation = "RESULT";
          row_pk = colon book reference;
          actor = ctx.actor;
          reason = ctx.reason;
          session_id = ctx.session_id;
          monotonic_ms = p.monotonic_ms (suc (max_seq db.audit_log));
          row_signature = p.blake2_hex (result_json book reference r);
          row_payload = result_json book reference r;
        }
          ∷ [];
  }

  -- The `operation`.
  unfoldable pub insert_result :
      String → String → LegislativeValidationResult → AuditContext → Database → Result Database
  insert_result book reference r ctx db = ok (with_result book reference r ctx db)

  -- The row takes actor and reason from the argument, not from the triggers' functions.
  unfoldable pub append_legislative_result :
      String → String → LegislativeValidationResult → AuditContext → Write
  append_legislative_result book reference r ctx =
      execute_write p (λ _. insert_result book reference r ctx) ctx

  pub insert_result-ok :
      (book reference : String) (r : LegislativeValidationResult) (ctx : AuditContext)
      (db db' : Database)
      → insert_result book reference r ctx db ≡ ok db'
      → with_result book reference r ctx db ≡ db'
  unfolding insert_result
  insert_result-ok book reference r ctx db db' h = cc
