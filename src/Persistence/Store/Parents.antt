-- ===== src/Persistence/Store/Parents.antt =====
-- The deferred foreign key of schema.py, from an account to its parent, which each commit tests.
use finest_vx.Prelude.{
  String, ◌≡◌, refl, true, Option, none, some, List, [], ◌∷◌, All, arith, subst, >>=-eq-ok,
}
use finest_vx.Core.Errors.{Result}
use finest_vx.Persistence.Rows.{AccountRow, Database}
use finest_vx.Persistence.Schema.{has_account, parents_known, check_deferred}
use finest_vx.Persistence.Store.{transact}
use finest_vx.Persistence.Store.Induction.{Commits}
use finest_vx.Persistence.Store.Integrity.{HasKeys}

-- The parent of the account, where it has one, is an account of its book.
abbrev pub HasParent : Database → AccountRow → Type 0
HasParent db r = (c : String) → r.parent_code ≡ some c → has_account db r.book_code c ≡ true

-- All primary and foreign keys of the tables hold.
abbrev pub IsIntegral : Database → Type 0
IsIntegral db = HasKeys db × All (HasParent db) db.accounts

abbrev pub KeepsParents : Database → Database → Type 0
KeepsParents a b = All (HasParent a) a.accounts → All (HasParent b) b.accounts

parent_known :
    (db : Database) (r : AccountRow) (o : Option String)
    → r.parent_code ≡ o
    → elim o [ none ↦ true | some c ↦ has_account db r.book_code c ] ≡ true
    → HasParent db r
parent_known db r none is h c named = absurd (cc)
parent_known db r (some d) is h c named =
    let same : d ≡ c = cc in subst (λ q. has_account db r.book_code q ≡ true) same h

parents_known-All :
    (db : Database) (rows : List AccountRow)
    → parents_known db rows ≡ true
    → All (HasParent db) rows
unfolding parents_known
parents_known-All db [] h = tt
parents_known-All db (r ∷ rest) h =
    (parent_known db r r.parent_code refl (ground arith), parents_known-All db rest (ground arith))

-- Whatever was written, what is committed has passed the test.
pub transact-KeepsParents :
    (operation : Database → Result Database) → Commits KeepsParents (transact operation)
unfolding transact check_deferred
transact-KeepsParents operation = record {
  at = λ a b h before.
      let (mid, first, second) = >>=-eq-ok (operation a) _ h in
      let known : parents_known mid mid.accounts ≡ true = ground arith in
      let same : mid ≡ b = ground arith in
      subst (λ (db : Database). All (HasParent db) db.accounts) same
        (parents_known-All mid mid.accounts known);
}
