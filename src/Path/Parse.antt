-- ===== src/Path/Parse.antt =====
-- `path_parse` of ch15/fs/fs.c on a text: the first component and what follows it.
use os_elephant.Base.{
  ℕ, zero, suc, ◌+◌, ◌<◌, ◌≤◌, ◌≡◌, ◌⊎◌, refl, ap, ◌∙◌, true, false, ◌&&◌, Option, none, some, List,
  [], ◌∷◌, length, ◌==◌, neb, if◌then◌else◌, ok, arith, Bool-cases, inl, inr,
}
use os_elephant.CString.{Memory, write}
use os_elephant.CString.Copy.{within}
use os_elephant.CString.Text.{CStr, CStr-frame}
use os_elephant.Path.{slash, skip_slashes, copy_name, path_parse}

unfoldable pub unslashed : List ℕ → List ℕ
unslashed [] = []
unslashed (c ∷ s) = if c == slash then unslashed s else c ∷ s

-- The characters before the next slash, and the text from it on.
unfoldable pub first_name : List ℕ → List ℕ
first_name [] = []
first_name (c ∷ s) = if c == slash then [] else c ∷ first_name s

unfoldable pub after_name : List ℕ → List ℕ
after_name [] = []
after_name (c ∷ s) = if c == slash then c ∷ s else after_name s

-- The characters stand in memory from `p` on.
abbrev pub Holds : Memory → ℕ → List ℕ → Type 0
Holds m p [] = Unit {0}
Holds m p (c ∷ s) = (m p ≡ c) × Holds m (p + 1) s

-- `NULL` stands for the empty text.
abbrev pub Points : Memory → List ℕ → Option ℕ → Type 0
Points m s none = s ≡ []
Points m s (some p) = CStr m p s

skip_lem :
    (fuel p : ℕ) (m : Memory) (t : List ℕ)
    → CStr m p t
    → length t < fuel
    → (q : ℕ) × (skip_slashes fuel p m ≡ ok q)
      × CStr m q (unslashed t)
      × (p ≤ q)
      × (q + length (unslashed t) ≡ p + length t)
unfolding skip_slashes unslashed
skip_lem zero p m t h lt = absurd (omega arith)
skip_lem (suc fuel) p m [] h lt = (p, rw h refl, h, omega arith, refl)
skip_lem (suc fuel) p m (c ∷ s) h lt = elim (Bool-cases (c == slash)) [
  | inl e ↦
      let (q, run, text, low, same) = skip_lem fuel (p + 1) m s h.3 (omega arith) in
      let at : (m p == slash) ≡ true = ap (λ x. x == slash) h.0 ∙ e in
      (q, rw at run, rw e text, omega arith, rw e (omega arith))
  | inr e ↦
      let at : (m p == slash) ≡ false = ap (λ x. x == slash) h.0 ∙ e in
      (p, rw at refl, rw e h, omega arith, rw e refl)
]

abbrev pub Apart : ℕ → ℕ → ℕ → Type 0
Apart p st n = (p + n < st) ⊎ (st + n ≤ p)

Apart-next : (p st n : ℕ) → Apart p st (suc n) → Apart (p + 1) (st + 1) n
Apart-next p st n (inl h) = inl (omega arith)
Apart-next p st n (inr h) = inr (omega arith)

off_store :
    (st n r : ℕ) → within st (suc n) r ≡ false → (within (st + 1) n r ≡ false) × ((st == r) ≡ false)
off_store st n r h = (ground arith, ground arith)

copy_lem :
    (fuel p st : ℕ) (m : Memory) (t : List ℕ)
    → CStr m p t
    → Apart p st (length t)
    → length t < fuel
    → (q : ℕ) × (m' : Memory) × (copy_name fuel p st m ≡ ok (q, m'))
      × Holds m' st (first_name t)
      × CStr m' q (after_name t)
      × ((r : ℕ) → within st (length (first_name t)) r ≡ false → m' r ≡ m r)
unfolding copy_name first_name after_name
copy_lem zero p st m t h apart lt = absurd (omega arith)
copy_lem (suc fuel) p st m [] h apart lt = (p, m, rw h refl, tt, h, λ r out. refl)
copy_lem (suc fuel) p st m (c ∷ s) h apart lt = elim (Bool-cases (c == slash)) [
  | inl e ↦
      let at : neb (m p) slash ≡ false = ap (λ x. neb x slash) h.0 ∙ ground arith in
      (p, m, rw at refl, rw e tt, rw e h, λ r out. refl)
  | inr e ↦
      let m1 : Memory = write m st (m p) in
      let rest : CStr m1 (p + 1) s = CStr-frame m m1 (p + 1) s (λ q lo hi. ground arith) h.3 in
      let (q, m', run, name, after, others) =
        copy_lem fuel (p + 1) (st + 1) m1 s rest (Apart-next p st (length s) apart) (omega arith) in
      let at : (neb (m p) slash && neb (m p) 0) ≡ true =
        ap (λ x. neb x slash && neb x 0) h.0 ∙ ground arith in
      (
        q,
        m',
        rw at run,
        rw e (others st (ground arith) ∙ ground (arith, h.0), name),
        rw e after,
        λ r out.
            let (inner, ne) = off_store st (length (first_name s)) r (rw e at out) in
            others r inner ∙ rw ne refl,
      )
]

-- `path_parse` on a text returns what follows the first name, `NULL` at the end, and puts the name
-- at the store, without a NUL behind it and whatever its length; no other byte changes. The store
-- does not overlap the text, which the fuel exceeds.
pub path_parse_lem :
    (fuel p st : ℕ) (m : Memory) (t : List ℕ)
    → CStr m p t
    → Apart p st (length t)
    → length t < fuel
    → (r : Option ℕ) × (m' : Memory) × (path_parse fuel p st m ≡ ok (r, m'))
      × Holds m' st (first_name (unslashed t))
      × Points m' (after_name (unslashed t)) r
      × ((q : ℕ) → within st (length (first_name (unslashed t))) q ≡ false → m' q ≡ m q)
unfolding path_parse
path_parse_lem fuel p st m t h apart lt =
    let (q, skipped, text, low, same) = skip_lem fuel p m t h lt in
    let (e, m', run, name, after, others) =
      copy_lem fuel q st m (unslashed t) text (later q low same apart) (omega arith) in
    (
      (if m' e == 0 then none else some e),
      m',
      rw (skipped, run) refl,
      name,
      ends m' e _ after,
      others,
    )
  where
    later :
        (q : ℕ)
        → p ≤ q
        → q + length (unslashed t) ≡ p + length t
        → Apart p st (length t)
        → Apart q st (length (unslashed t))
    later q low same (inl a) = inl (omega arith)
    later q low same (inr a) = inr (omega arith)

    ends :
        (m' : Memory) (e : ℕ) (s : List ℕ)
        → CStr m' e s
        → Points m' s (if m' e == 0 then none else some e)
    ends m' e [] h = rw h refl
    ends m' e (c ∷ s) h =
        let some_char : (m' e == 0) ≡ false = ground (arith, h.0, h.1) in rw some_char h
