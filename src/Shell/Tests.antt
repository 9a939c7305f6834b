-- ===== src/Shell/Tests.antt =====
-- The line "a b", with the space as the token.
use os_elephant.Base.{refl, [], ◌∷◌, ◌==◌, if◌then◌else◌, arith}
use os_elephant.CString.{Memory}
use os_elephant.CString.Text.{CStr}

abbrev line : Memory
line a = if a == 10 then 97 else if a == 11 then 32 else if a == 12 then 98 else 0

line-CStr : CStr line 10 (97 ∷ 32 ∷ 98 ∷ [])
line-CStr = (
  refl,
  (λ z. omega (arith, z)),
  omega arith,
  (refl, (λ z. omega (arith, z)), omega arith, (refl, (λ z. omega (arith, z)), omega arith, refl)),
)
