-- ===== src/CString/Join.antt =====
-- Copying and joining texts: `strcpy` and `strcat`.
use mathlib.Core.Path.{subst}
use os_elephant.Base.{
  ℕ, zero, suc, ◌+◌, ◌-◌, ◌<◌, ◌≡◌, ◌≢◌, ◌⊎◌, false, List, [], ◌∷◌, ◌++◌, length, ok, arith, ◌∙◌,
}
use os_elephant.CString.{Memory, write, strcpy_loop, strcpy, strcat}
use os_elephant.CString.Copy.{within, Clear}
use os_elephant.CString.Text.{CStr, CStr-frame, strlen_loop_lem}

-- What a copy of a text leaves.
pub record Copied (m : Memory) (dst src : ℕ) (s : List ℕ) (m' : Memory) : Type 0 where
  pub text : CStr m' dst s
  pub others : (q : ℕ) → within dst (length s + 1) q ≡ false → m' q ≡ m q

strcpy_loop_lem :
    (fuel dst src : ℕ) (m : Memory) (s : List ℕ)
    → CStr m src s
    → Clear dst src (length s + 1)
    → length s < fuel
    → (m' : Memory) × (strcpy_loop fuel dst src m ≡ ok m') × Copied m dst src s m'
strcpy_loop_lem zero dst src m s t c h = absurd (omega arith)
strcpy_loop_lem (suc fuel) dst src m [] t c h = (
  write m dst (m src),
  (unfold strcpy_loop in ground arith),
  record { text = ground arith; others = λ q z. ground arith },
)
strcpy_loop_lem (suc fuel) dst src m (x ∷ s) t c h =
    let m1 : Memory = write m dst (m src) in
    let t1 : CStr m1 (src + 1) s = CStr-frame m m1 (src + 1) s (λ q lo hi. ground arith) t.3 in
    let (m', run, done) =
      strcpy_loop_lem fuel (dst + 1) (src + 1) m1 s t1 (omega arith) (omega arith) in
    (
      m',
      goes ∙ run,
      record {
        text = (done.others dst (ground arith) ∙ ground arith, t.1, t.2, done.text);
        others = λ q z. done.others q (ground arith) ∙ ground arith;
      },
    )
  where
    goes :
        strcpy_loop (suc fuel) dst src m
        ≡ strcpy_loop fuel (dst + 1) (src + 1) (write m dst (m src))
    goes = unfold strcpy_loop in ground arith

-- `strcpy` leaves the text at the destination, changes no byte outside it, and returns the
-- destination, if this does not start inside the source; neither address is `NULL`, and the fuel
-- exceeds the text.
pub strcpy-Copied :
    (fuel dst src : ℕ) (m : Memory) (s : List ℕ)
    → dst ≢ 0
    → src ≢ 0
    → CStr m src s
    → Clear dst src (length s + 1)
    → length s < fuel
    → (m' : Memory) × (strcpy fuel dst src m ≡ ok (dst, m')) × Copied m dst src s m'
unfolding strcpy
strcpy-Copied fuel dst src m s nd ns t c h =
    let (m', run, done) = strcpy_loop_lem fuel dst src m s t c h in (m', ground (arith, run), done)

CStr-append :
    (m m' : Memory) (p : ℕ) (s t : List ℕ)
    → CStr m p s
    → ((q : ℕ) → q < p + length s → m' q ≡ m q)
    → CStr m' (p + length s) t
    → CStr m' p (s ++ t)
CStr-append m m' p [] t x same_below y = subst (λ q. CStr m' q t) (omega arith) y
CStr-append m m' p (c ∷ s) t x same_below y = (
  same_below p (omega arith) ∙ x.0,
  x.1,
  x.2,
  CStr-append m m' (p + 1) s t x.3 (λ q lt. same_below q (omega arith))
      (subst (λ q. CStr m' q t) (omega arith) y),
)

-- `strcat` leaves the two texts joined at the destination, and changes no byte outside the place
-- of the second, if the source lies behind the joined text or before the destination; neither
-- address is `NULL`, and the fuel exceeds both texts together.
pub strcat-append :
    (fuel dst src : ℕ) (m : Memory) (s t : List ℕ)
    → dst ≢ 0
    → src ≢ 0
    → CStr m dst s
    → CStr m src t
    → (dst + length s + length t < src) ⊎ (src + length t < dst)
    → length s + length t < fuel
    → (m' : Memory) × (strcat fuel dst src m ≡ ok (dst, m'))
      × CStr m' dst (s ++ t)
      × ((q : ℕ) → within (dst + length s) (length t + 1) q ≡ false → m' q ≡ m q)
unfolding strcat
strcat-append fuel dst src m s t nd ns x y apart h =
    let (m', run, done) =
      strcpy_loop_lem fuel (dst + length s) src m t y (omega arith) (omega arith) in
    (
      m',
      glue run,
      CStr-append m m' dst s t x (λ q lt. done.others q (ground arith)) done.text,
      done.others,
    )
  where
    minus_one : dst + length s + 1 - 1 ≡ dst + length s
    minus_one = omega arith

    glue :
        {m' : Memory}
        → strcpy_loop fuel (dst + length s) src m ≡ ok m'
        → strcat fuel dst src m ≡ ok (dst, m')
    glue run = ground (arith, strlen_loop_lem fuel dst m s x (omega arith), run, minus_one)
