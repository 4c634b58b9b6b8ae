-- ===== src/Persistence/AuditLog.antt =====
-- persistence/store.py `iter_audit_log` and `iter_audit_log_pages`: the audit log, whole or in pages.
-- The pages are read from one state of the log.
pub mod Pages
use finest_vx.Prelude.{
  ℕ, zero, suc, ◌+◌, Bool, Option, none, some, List, [], ◌∷◌, select, order_by, ltb, leb,
}
use finest_vx.Persistence.Rows.{AuditLogRecord}

-- LIMIT
abbrev pub take {ℓ} : {A : Type ℓ} → ℕ → List A → List A
take zero xs = []
take (suc n) [] = []
take (suc n) (x ∷ xs) = x ∷ take n xs

-- The number of `records[-1]`, of a page that starts with the given record.
abbrev pub last_seq : AuditLogRecord → List AuditLogRecord → ℕ
last_seq r [] = r.seq
last_seq r (s ∷ rest) = last_seq s rest

abbrev pub limited : Option ℕ → List AuditLogRecord → List AuditLogRecord
limited none rows = rows
limited (some n) rows = take n rows

unfoldable pub by_seq : List AuditLogRecord → List AuditLogRecord
by_seq = order_by (λ a b. leb a.seq b.seq)

unfoldable pub iter_audit_log : List AuditLogRecord → Option ℕ → List AuditLogRecord
unfolding by_seq
iter_audit_log log limit = limited limit (by_seq log)

-- `WHERE seq > ? ORDER BY seq LIMIT ?`
unfoldable pub page : List AuditLogRecord → ℕ → ℕ → List AuditLogRecord
page log page_size after = take page_size (by_seq (select (λ r. ltb after r.seq) log))

-- One round of the loop: nothing more after an empty page.
abbrev pub yield_page :
    (ℕ → List (List AuditLogRecord)) → List AuditLogRecord → List (List AuditLogRecord)
yield_page onward [] = []
yield_page onward (r ∷ rest) = (r ∷ rest) ∷ onward (last_seq r rest)

-- The `while True` loop, with fuel: the pages that are yielded.
unfoldable pub pages : ℕ → List AuditLogRecord → ℕ → ℕ → List (List AuditLogRecord)
pages zero log page_size after = []
pages (suc fuel) log page_size after =
    yield_page (λ last. pages fuel log page_size last) (page log page_size after)
