-- ===== src/Persistence/AuditLog/Pages.antt =====
-- The pages of the audit log are, one after another, the rows behind the start.
use finest_vx.Prelude.{
  ℕ, zero, suc, ◌≤◌, ◌<◌, ◌≡◌, refl, sym, ap, List, [], ◌∷◌, ◌++◌, arith, select, order_by,
  insert_ordered, ltb, length, length-append, subst, Bool-cases, inl, inr,
}
use finest_vx.Persistence.Rows.{AuditLogRecord, Database}
use finest_vx.Persistence.AuditLog.{take, last_seq, by_seq, page, pages}
use finest_vx.Persistence.Store.Auditing.{NumberedFrom, IsNumbered}

-- The rows behind a sequence number.
abbrev pub behind : ℕ → List AuditLogRecord → List AuditLogRecord
behind after = select (λ r. ltb after r.seq)

abbrev pub concat : List (List AuditLogRecord) → List AuditLogRecord
concat [] = []
concat (xs ∷ rest) = xs ++ concat rest

by_seq-NumberedFrom : (n : ℕ) (xs : List AuditLogRecord) → NumberedFrom n xs → by_seq xs ≡ xs
unfolding by_seq order_by insert_ordered
by_seq-NumberedFrom n [] h = refl
by_seq-NumberedFrom n (x ∷ []) h = refl
by_seq-NumberedFrom n (x ∷ y ∷ rest) (h, (k, hs)) =
    rw (by_seq-NumberedFrom (suc n) (y ∷ rest) (k, hs)) (ground arith)

-- Rows that are all behind the number are kept.
behind-all :
    (n after : ℕ) (xs : List AuditLogRecord) → NumberedFrom n xs → after ≤ n → behind after xs ≡ xs
behind-all n after [] h le = refl
behind-all n after (x ∷ rest) (h, hs) le =
    ground (arith, behind-all (suc n) after rest hs (omega arith))

behind-NumberedFrom :
    (n after : ℕ) (xs : List AuditLogRecord)
    → NumberedFrom n xs
    → (m : ℕ) × NumberedFrom m (behind after xs)
behind-NumberedFrom n after [] h = (n, tt)
behind-NumberedFrom n after (x ∷ rest) (h, hs) = elim (Bool-cases (ltb after x.seq)) [
  | inl far ↦ (
    n,
    subst (NumberedFrom n) (sym (behind-all n after (x ∷ rest) (h, hs) (ground arith))) (h, hs),
  )
  | inr near ↦
      let (m, numbered) = behind-NumberedFrom (suc n) after rest hs in
      let same : behind after (x ∷ rest) ≡ behind after rest = ground arith in
      (m, subst (NumberedFrom m) (sym same) numbered)
]

behind-behind : (a b : ℕ) (xs : List AuditLogRecord) → a ≤ b → behind b (behind a xs) ≡ behind b xs
behind-behind a b [] le = refl
behind-behind a b (x ∷ rest) le = ground (arith, behind-behind a b rest le)

behind-first :
    (after : ℕ) (xs : List AuditLogRecord) (x : AuditLogRecord) (rest : List AuditLogRecord)
    → behind after xs ≡ x ∷ rest
    → after < x.seq
behind-first after [] x rest h = absurd (cc)
behind-first after (y ∷ ys) x rest h = ground (arith, behind-first after ys x rest)

last_seq-take :
    (n q : ℕ) (x : AuditLogRecord) (rest : List AuditLogRecord)
    → NumberedFrom n (x ∷ rest)
    → x.seq ≤ last_seq x (take q rest)
last_seq-take n zero x rest h = omega arith
last_seq-take n (suc q) x [] h = omega arith
last_seq-take n (suc q) x (y ∷ rest) (h, (k, hs)) =
    omega (arith, h, k, last_seq-take (suc n) q y rest (k, hs))

-- A page and the rows behind its last one.
take-behind :
    (n q : ℕ) (x : AuditLogRecord) (rest : List AuditLogRecord)
    → NumberedFrom n (x ∷ rest)
    → take q rest ++ behind (last_seq x (take q rest)) (x ∷ rest) ≡ rest
take-behind n zero x rest (h, hs) =
    ground (arith, behind-all (suc n) x.seq rest hs (omega (arith, h)))
take-behind n (suc q) x [] h = ground arith
take-behind n (suc q) x (y ∷ rest) (h, (k, hs)) =
    let le = last_seq-take (suc n) q y rest (k, hs) in
    ground (arith, take-behind (suc n) q y rest (k, hs))

module _ (log : List AuditLogRecord) (numbered : NumberedFrom 0 log) where
  page-behind : (page_size after : ℕ) → page log page_size after ≡ take page_size (behind after log)
  unfolding page
  page-behind page_size after =
      let (m, h) = behind-NumberedFrom 0 after log numbered in
      ap (take page_size) (by_seq-NumberedFrom m (behind after log) h)

  -- One round: a page, and the rows behind it.
  page_then_rest :
      (q after : ℕ) (x : AuditLogRecord) (rest : List AuditLogRecord)
      → behind after log ≡ x ∷ rest
      → take q rest ++ behind (last_seq x (take q rest)) log ≡ rest
  page_then_rest q after x rest h =
      let (m, ordered) = behind-NumberedFrom 0 after log numbered in
      let le = last_seq-take m q x rest (subst (NumberedFrom m) h ordered) in
      let far = behind-first after log x rest h in
      rw (sym (behind-behind after (last_seq x (take q rest)) log (omega arith)), h)
        (take-behind m q x rest (subst (NumberedFrom m) h ordered))

  pages-behind :
      (fuel q after : ℕ) (rows : List AuditLogRecord)
      → behind after log ≡ rows
      → length rows ≤ fuel
      → concat (pages fuel log (suc q) after) ≡ rows
  unfolding pages
  pages-behind zero q after [] h le = refl
  pages-behind zero q after (x ∷ rest) h le = absurd (omega arith)
  pages-behind (suc fuel) q after [] h le = rw (page-behind (suc q) after, h)
  pages-behind (suc fuel) q after (x ∷ rest) h le =
      let onward = page_then_rest q after x rest h in
      let count = length-append (take q rest) (behind (last_seq x (take q rest)) log) in
      rw (
        page-behind (suc q) after,
        h,
        pages-behind fuel q (last_seq x (take q rest)) (behind (last_seq x (take q rest)) log) refl
            (omega (arith, count, ap length onward)),
        onward,
      )

-- Of a log that is numbered 1, 2, 3 and so on, the pages are, one after another, exactly the rows
-- behind the start in their order, for every page size above 0; as many rounds as there are such
-- rows are enough for the loop.
pub pages_complete :
    (db : Database) (q start fuel : ℕ)
    → IsNumbered db
    → length (behind start db.audit_log) ≤ fuel
    → concat (pages fuel db.audit_log (suc q) start) ≡ behind start db.audit_log
pages_complete db q start fuel numbered enough =
    pages-behind db.audit_log numbered fuel q start (behind start db.audit_log) refl enough

take-length : (n : ℕ) (xs : List AuditLogRecord) → length (take n xs) ≤ n
take-length zero xs = omega arith
take-length (suc n) [] = omega arith
take-length (suc n) (x ∷ xs) = omega (arith, take-length n xs)
