-- ===== src/Tests/Text.antt =====
-- kernel/core/stdclib.cpp on two short strings.
use tysos_cxx.Prelude.{
  ℕ, ◌+◌, ◌<◌, ◌≡◌, List, [], ◌∷◌, ◌++◌, some, refl, arith, length, ℤ, pos, ◌⊎◌, inl, ◌==◌,
  if◌then◌else◌, ◌↔◌,
}
use tysos_cxx.Strings.{strcmp, strcat}
use tysos_cxx.Strings.Copies.{CString, strcat_lem}
use tysos_cxx.Strings.Compare.{strcmp_iff}

-- "ab" at 100 and "c" at 200.
abbrev memory : ℕ → ℕ
memory a = if a == 100 then b'a' else if a == 101 then b'b' else if a == 200 then b'c' else 0

abbrev ab : List ℕ
ab = b'a' ∷ b'b' ∷ []

abbrev c : List ℕ
c = b'c' ∷ []

ab_at : CString memory 100 ab
ab_at = (refl, omega arith, (refl, omega arith, refl))

c_at : CString memory 200 c
c_at = (refl, omega arith, refl)

strcat_lem_example :
    (mem : ℕ → ℕ) × (strcat 10 memory 100 200 ≡ some mem)
    × CString mem 100 (ab ++ c)
    × CString mem 200 c
    × ((a : ℕ) → (a < 100) ⊎ (100 + (length ab + length c) < a) → mem a ≡ memory a)
strcat_lem_example =
    strcat_lem 10 memory 100 200 ab c ab_at c_at (omega arith) (omega arith) (omega arith)
      (omega arith) (inl (omega arith))

test-strcmp_order : (r : ℤ) × (strcmp 10 memory 100 200 ≡ some r) × ((r ≡ pos 0) ↔ (ab ≡ c))
test-strcmp_order =
    strcmp_iff 10 memory 100 200 ab c ab_at c_at (omega arith, (omega arith, tt)) (omega arith, tt)
      (omega arith) (omega arith) (omega arith)
