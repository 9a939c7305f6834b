-- ===== src/Process/Directory.antt =====
-- What a new page directory maps: `create_page_dir` of ch15/userprog/process.c.
use os_elephant.Base.{
  ℕ, zero, suc, ◌+◌, ◌-◌, ◌*◌, ◌/◌, ◌%◌, ◌^◌, ◌<◌, ◌≤◌, ◌≡◌, ◌≢◌, ◌⊎◌, inl, inr, refl, ap, ◌∙◌,
  Bool, true, false, ◌&&◌, ltb, leb, neb, ◌==◌, if◌then◌else◌, ok, arith, neq_false, bit_or, add32,
  ==_iff, Bool-cases,
}
use os_elephant.Memory.{pf_kernel, Pages, put_word, pg_size, pte_ptr, pte_idx}
use os_elephant.Memory.Alloc.{malloc_page, get_kernel_pages, addr_v2p}
use os_elephant.Process.{current_dir, copy_words, user_page, create_page_dir}

-- A word is one of a number from `p` on.
abbrev pub is_word : ℕ → ℕ → ℕ → Bool
is_word p count q = leb p q && (ltb q (p + 4 * count) && ((q - p) % 4 == 0))

step_lem :
    (left dst src q : ℕ) (s : Pages)
    → dst + 4 * suc left ≤ src
    → (if is_word (dst + 4) left q
        then (put_word dst (s.words src) s).words (src + 4 + (q - (dst + 4)))
        else (put_word dst (s.words src) s).words q)
      ≡ (if is_word dst (suc left) q then s.words (src + (q - dst)) else s.words q)
step_lem left dst src q s apart = elim (Bool-cases (is_word (dst + 4) left q)) [
  | inl later ↦
      let low : dst + 4 ≤ q = ground (arith, later) in
      let word : is_word dst (suc left) q ≡ true = ground (arith, later) in
      let from : src + 4 + (q - (dst + 4)) ≡ src + (q - dst) = omega (arith, low) in
      let kept : (dst == src + (q - dst)) ≡ false =
        neq_false _ _ (λ e. absurd (omega (arith, e, apart))) in
      rw (later, word, from, kept) refl
  | inr other ↦ elim (Bool-cases (dst == q)) [
    | inl here ↦
        let e : dst ≡ q = ground (arith, here) in
        let word : is_word dst (suc left) q ≡ true = ground (arith, here) in
        let from : src + (q - dst) ≡ src = omega (arith, e) in rw (other, here, word, from) refl
    | inr away ↦
        let word : is_word dst (suc left) q ≡ false = ground (arith, other, away) in
        rw (other, away, word) refl
  ]
]

copy_words_lem :
    (left dst src : ℕ) (s : Pages)
    → dst + 4 * left ≤ src
    → (q : ℕ)
    → (copy_words left dst src s).words q
      ≡ (if is_word dst left q then s.words (src + (q - dst)) else s.words q)
unfolding copy_words
copy_words_lem zero dst src s apart q = ground arith
copy_words_lem (suc left) dst src s apart q =
    copy_words_lem left (dst + 4) (src + 4) (put_word dst (s.words src) s) (omega arith) q
    ∙ step_lem left dst src q s apart

copy_words_rest :
    (left dst src : ℕ) (s : Pages)
    → copy_words left dst src s ≡ record s { words = (copy_words left dst src s).words }
unfolding copy_words
copy_words_rest zero dst src s = refl
copy_words_rest (suc left) dst src s =
    copy_words_rest left (dst + 4) (src + 4) (put_word dst (s.words src) s)

pte_high : (v : ℕ) → v < 2 ^ 32 → 0xffc00000 ≤ pte_ptr v
unfolding pte_ptr pte_idx
pte_high v h = omega arith

-- `create_page_dir`, when `malloc_page` gives a page below the page tables: the new directory maps
-- no user page, its entries 768 to 1022 are those of the current directory, its last entry is the
-- directory's own physical address with the rights of a user page, and nothing outside the page
-- changes from what `malloc_page` left.
pub create_page_dir_lem :
    (v : ℕ) (s p : Pages)
    → malloc_page pf_kernel 1 s ≡ ok (v, p)
    → v ≢ 0
    → v % pg_size ≡ 0
    → v + pg_size ≤ 0xffc00000
    → (s' : Pages) × (create_page_dir s ≡ ok (v, s'))
      × ((i : ℕ) → i < 768 → s'.words (v + 4 * i) ≡ 0)
      × ((i : ℕ) → 768 ≤ i → i < 1023 → s'.words (v + 4 * i) ≡ p.words (current_dir + 4 * i))
      × (s'.words (v + 4 * 1023) ≡ bit_or (addr_v2p v p) user_page)
      × ((q : ℕ) → (q < v) ⊎ (v + pg_size ≤ q) → s'.words q ≡ p.words q)
      × (s' ≡ record p { words = s'.words })
unfolding create_page_dir get_kernel_pages
create_page_dir_lem v s p run nz aligned low =
    let t1 : (v == 0) ≡ false = neq_false v 0 nz in
    let t2 : neb v 0 ≡ true = ground arith in
    let fresh : Pages = record p {
      words = λ q. if leb v q && ltb q (v + 4096) then 0 else p.words q;
    } in
    let shared = copy_words 256 (v + 0x300 * 4) (current_dir + 0x300 * 4) fresh in
    let copied = copy_words_lem 256 (v + 0x300 * 4) (current_dir + 0x300 * 4) fresh (omega arith) in
    let outside : (q : ℕ) → (q < v) ⊎ (v + pg_size ≤ q) → shared.words q ≡ p.words q =
      (λ q out. copied q ∙ ground (arith, out)) in
    let same_addr : addr_v2p v shared ≡ addr_v2p v p =
      unfold addr_v2p in
      ap (λ w. add32 (w / pg_size * pg_size) (v % pg_size))
        (outside (pte_ptr v) (inr (omega (arith, pte_high v (omega arith))))) in
    let rest : put_word (v + 4 * 1023) (bit_or (addr_v2p v shared) user_page) shared ≡ record p {
      words = (put_word (v + 4 * 1023) (bit_or (addr_v2p v shared) user_page) shared).words;
    } =
      ap
        (λ (x : Pages). record x {
          words = (put_word (v + 4 * 1023) (bit_or (addr_v2p v shared) user_page) shared).words;
        })
        (copy_words_rest 256 (v + 0x300 * 4) (current_dir + 0x300 * 4) fresh) in
    (
      put_word (v + 4 * 1023) (bit_or (addr_v2p v shared) user_page) shared,
      rw (run, t1, t2, t1) refl,
      (λ i lt.
          (let away : (v + 4 * 1023 == v + 4 * i) ≡ false = ground arith in
            rw away (copied (v + 4 * i) ∙ ground arith))),
      (λ i le lt.
          (let away : (v + 4 * 1023 == v + 4 * i) ≡ false = ground arith in
            let word : is_word (v + 0x300 * 4) 256 (v + 4 * i) ≡ true = ground arith in
            let from : current_dir + 0x300 * 4 + (v + 4 * i - (v + 0x300 * 4))
                ≡ current_dir + 4 * i =
              omega arith in
            let out : (leb v (current_dir + 4 * i) && ltb (current_dir + 4 * i) (v + 4096))
                ≡ false =
              ground arith in
            rw away (copied (v + 4 * i) ∙ rw (word, from, out) refl))),
      (let here : (v + 4 * 1023 == v + 4 * 1023) ≡ true = (==_iff _ _).1 refl in
          rw here (ap (λ a. bit_or a user_page) same_addr)),
      (λ q out.
          (let away : (v + 4 * 1023 == q) ≡ false = ground (arith, out) in
            rw away (outside q out))),
      rest,
    )
