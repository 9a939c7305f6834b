-- ===== src/Ide/Swap.antt =====
-- The texts of a drive's identification, two bytes to a word: `swap_pairs_bytes` of
-- ch15/device/ide.c.
use os_elephant.Base.{
  ℕ, zero, suc, ◌+◌, ◌-◌, ◌%◌, ◌<◌, ◌≤◌, ◌≡◌, ◌⊎◌, inl, inr, refl, ◌∙◌, true, false, ltb, ◌==◌,
  if◌then◌else◌, Outcome, ok, out_of_fuel, arith, u8, Bool-cases,
}
use os_elephant.CString.{Memory, write}
use os_elephant.CString.Copy.{within}

-- `dst` is what is read, and `idx` a byte.
unfoldable pub swap_loop : ℕ → ℕ → ℕ → ℕ → ℕ → Memory → Outcome Memory
swap_loop zero dst buf idx len m = out_of_fuel
swap_loop (suc fuel) dst buf idx len m =
    let m₁ = write m (buf + (idx + 1)) (m dst) in
    let m₂ = write m₁ (buf + idx) (m₁ (dst + 1)) in
    let rest = swap_loop fuel (dst + 2) buf (u8 (idx + 2)) len m₂ in
    if ltb idx len then rest else ok (write m (buf + idx) 0)

unfoldable pub swap_pairs_bytes : ℕ → ℕ → ℕ → ℕ → Memory → Outcome Memory
unfolding swap_loop
swap_pairs_bytes fuel dst buf len m = swap_loop fuel dst buf 0 len m

-- The place of a byte in the pair with its neighbour.
abbrev pub neighbour : ℕ → ℕ
neighbour k = if k % 2 == 0 then k + 1 else k - 1

-- The text at an address of the result, when `idx` bytes are done.
abbrev swapped : ℕ → ℕ → ℕ → ℕ → Memory → ℕ → ℕ
swapped src buf idx len m q =
    if q == buf + len
    then 0
    else if within (buf + idx) (len - idx) q
    then m (src + neighbour (q - buf))
    else m q

abbrev swap_pair : ℕ → ℕ → Memory → Memory
swap_pair src to m = let m₁ = write m (to + 1) (m src) in write m₁ to (m₁ (src + 1))

swap_step :
    (fuel src buf idx len : ℕ) (m : Memory)
    → idx < len
    → idx + 2 < 256
    → swap_loop (suc fuel) src buf idx len m
      ≡ swap_loop fuel (src + 2) buf (idx + 2) len (swap_pair src (buf + idx) m)
unfolding swap_loop
swap_step fuel src buf idx len m lt short =
    let t : ltb idx len ≡ true = ground arith in
    let e : u8 (idx + 2) ≡ idx + 2 = omega arith in
    let a : buf + (idx + 1) ≡ buf + idx + 1 = omega arith in rw (t, e, a) refl

module _ (src buf len : ℕ) (even : len % 2 ≡ 0) (short : len < 256)
    (apart : (src + len ≤ buf) ⊎ (buf + len < src)) where
  -- What is read lies apart from what is written.
  clear_of : (at n : ℕ) → n < len → at < len → (buf + at == src + n) ≡ false
  clear_of at n read lt = ground (arith, apart)

  pair :
      (idx : ℕ) (m : Memory) (q : ℕ)
      → idx % 2 ≡ 0
      → idx + 2 ≤ len
      → swapped src buf (idx + 2) len (swap_pair (src + idx) (buf + idx) m) q
        ≡ swapped src buf idx len m q
  pair idx m q h lt = elim (Bool-cases (within (buf + (idx + 2)) (len - (idx + 2)) q)) [
    | inl later ↦
        let n : neighbour (q - buf) < len = ground (arith, even, later) in
        let before : within (buf + idx) (len - idx) q ≡ true = ground (arith, later) in
        let not_to : (buf + idx == src + neighbour (q - buf)) ≡ false =
          clear_of idx (neighbour (q - buf)) n (omega arith) in
        let not_behind : (buf + idx + 1 == src + neighbour (q - buf)) ≡ false =
          (let e : buf + idx + 1 ≡ buf + (idx + 1) = omega arith in
            rw e (clear_of (idx + 1) (neighbour (q - buf)) n (omega arith))) in
        rw (later, before, not_to, not_behind) refl
    | inr other ↦ ground (arith, other, h, lt, even)
  ]

  swap_loop_lem :
      (fuel idx : ℕ) (m : Memory)
      → idx % 2 ≡ 0
      → idx ≤ len
      → len < idx + fuel + fuel
      → (m' : Memory) × (swap_loop fuel (src + idx) buf idx len m ≡ ok m')
        × ((q : ℕ) → m' q ≡ swapped src buf idx len m q)
  swap_loop_lem zero idx m h le enough = absurd (omega arith)
  swap_loop_lem (suc fuel) idx m h le enough = elim (Bool-cases (ltb idx len)) [
    | inl more ↦
        let lt : idx + 2 ≤ len = ground (arith, more, even, h) in
        let next : src + idx + 2 ≡ src + (idx + 2) = omega arith in
        let (m', run, after) =
          swap_loop_lem fuel (idx + 2) (swap_pair (src + idx) (buf + idx) m) (omega arith) lt
            (omega arith) in
        (
          m',
          swap_step fuel (src + idx) buf idx len m (omega arith) (omega (arith, even, lt))
              ∙ (rw next run),
          λ q. after q ∙ pair idx m q h lt,
        )
    | inr none ↦
        let e : idx ≡ len = ground arith in
        (write m (buf + idx) 0, (unfold swap_loop in rw none refl), λ q. rw e (ground arith))
  ]

-- `swap_pairs_bytes` of an even number of up to 254 bytes into a buffer apart from them returns
-- with fuel above half the number: each byte of the result is the one at the neighbour's place, a 0
-- follows, and no other byte changes.
pub swap_pairs_bytes_lem :
    (fuel src buf len : ℕ) (m : Memory)
    → len % 2 ≡ 0
    → len < 256
    → (src + len ≤ buf) ⊎ (buf + len < src)
    → len < fuel + fuel
    → (m' : Memory) × (swap_pairs_bytes fuel src buf len m ≡ ok m')
      × ((q : ℕ)
          → m' q ≡ (
              if q == buf + len
              then 0
              else if within buf len q
              then m (src + neighbour (q - buf))
              else m q))
unfolding swap_pairs_bytes
swap_pairs_bytes_lem fuel src buf len m even short apart enough =
    let (m', run, after) =
      swap_loop_lem src buf len even short apart fuel 0 m (omega arith) (omega arith)
        (omega arith) in
    let e1 : src + 0 ≡ src = omega arith in
    let e2 : buf + 0 ≡ buf = omega arith in
    let e3 : len - 0 ≡ len = omega arith in (m', (rw e1 at run), λ q. (rw (e2, e3) at after q))
