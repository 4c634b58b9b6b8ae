-- ===== src/Tests/Packs.antt =====
-- The registry and the Latvian pack on concrete inputs.
use finest_vx.Prelude.{
  String, ℕ, ◌≡◌, refl, ◌↔◌, true, List, [], ◌∷◌, ok, All, str_eq, if◌then◌else◌,
}
use finest_vx.Legislation.Registry.{register, resolve, resolve-register}
use finest_vx.Legislation.Latvia.{
  accepted, validate_transaction, HasStandardRate, validate_transaction-accepted,
}
use finest_vx.Tests.Fixtures.{engine, book, sale}

abbrev one_pack : List (String × ℕ)
one_pack = ("lv.standard.2026", 1) ∷ []

abbrev two_packs : List (String × ℕ)
two_packs = ("lv.standard.2026", 1) ∷ ("ee", 2) ∷ []

registered : register engine "ee" 2 one_pack ≡ ok two_packs
unfolding register
registered = refl

resolve-register_example :
    resolve engine two_packs "lv.standard.2026"
    ≡ (if str_eq "ee" "lv.standard.2026" then ok 2 else resolve engine one_pack "lv.standard.2026")
resolve-register_example =
    resolve-register engine one_pack two_packs "ee" "ee" "lv.standard.2026" "lv.standard.2026" 2
      registered refl refl

validate_transaction-accepted_example :
    (accepted (validate_transaction "lv.standard.2026" book sale) ≡ true)
    ↔ (All HasStandardRate sale.entries × (book.legislative_pack ≡ "lv.standard.2026"))
validate_transaction-accepted_example = validate_transaction-accepted "lv.standard.2026" book sale
