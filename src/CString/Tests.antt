-- ===== src/CString/Tests.antt =====
-- Two short texts in memory, and the theorems at them.
use os_elephant.Base.{refl, [], ◌∷◌, ◌==◌, if◌then◌else◌, arith}
use os_elephant.CString.{Memory}
use os_elephant.CString.Text.{CStr}

-- "/a/" at 100 and "b" at 200.
abbrev m : Memory
m p =
    if p == 100
    then 47
    else if p == 101
    then 97
    else if p == 102
    then 47
    else if p == 200
    then 98
    else 0

a_text : CStr m 100 (47 ∷ 97 ∷ 47 ∷ [])
a_text = (
  refl,
  omega arith,
  omega arith,
  (refl, omega arith, omega arith, (refl, omega arith, omega arith, refl)),
)

b_text : CStr m 200 (98 ∷ [])
b_text = (refl, omega arith, omega arith, refl)
