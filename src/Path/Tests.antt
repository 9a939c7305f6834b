-- ===== src/Path/Tests.antt =====
-- The path "//a/b", parsed.
use os_elephant.Base.{
  ℕ, ◌≡◌, refl, false, Option, [], ◌∷◌, List, length, ◌==◌, if◌then◌else◌, ok, arith, inl,
}
use os_elephant.CString.{Memory}
use os_elephant.CString.Copy.{within}
use os_elephant.CString.Text.{CStr}
use os_elephant.Path.{path_parse}
use os_elephant.Path.Parse.{Holds, Points, path_parse_lem, first_name, after_name, unslashed}

abbrev m : Memory
m p =
    if p == 100
    then 47
    else if p == 101
    then 47
    else if p == 102
    then 97
    else if p == 103
    then 47
    else if p == 104
    then 98
    else 0

abbrev text : List ℕ
text = 47 ∷ 47 ∷ 97 ∷ 47 ∷ 98 ∷ []

m_text : CStr m 100 text
m_text = (
  refl,
  omega arith,
  omega arith,
  (
    refl,
    omega arith,
    omega arith,
    (
      refl,
      omega arith,
      omega arith,
      (refl, omega arith, omega arith, (refl, omega arith, omega arith, refl)),
    ),
  ),
)

first_is_a : first_name (unslashed text) ≡ 97 ∷ []
unfolding first_name unslashed
first_is_a = refl

path_parse_lem_example :
    (r : Option ℕ) × (m' : Memory) × (path_parse 6 100 200 m ≡ ok (r, m'))
    × Holds m' 200 (first_name (unslashed text))
    × Points m' (after_name (unslashed text)) r
    × ((q : ℕ) → within 200 (length (first_name (unslashed text))) q ≡ false → m' q ≡ m q)
path_parse_lem_example = path_parse_lem 6 100 200 m text m_text (inl (omega arith)) (omega arith)
