-- ===== src/Fork/Counts.antt =====
-- The files that a process and its copy share: `update_inode_open_cnts` of ch15/userprog/fork.c.
use os_elephant.Base.{
  ℕ, zero, suc, ◌+◌, ◌^◌, ◌<◌, ◌≤◌, ◌≡◌, ◌⊎◌, inl, inr, refl, ap, ◌∙◌, Bool-cases, true, Option,
  none, some, ltb, ◌==◌, if◌then◌else◌, ok, arith,
}
use os_elephant.FileTable.{Files, File, max_file_open}
use os_elephant.Inode.{Inode}
use os_elephant.Fork.{Task, open_again, count_loop, update_inode_open_cnts}

-- Whether a descriptor leads to the inode at `a`, as 1 or 0.
abbrev pub leads_to : Option ℕ → (ℕ → File) → ℕ → ℕ
leads_to none t a = 0
leads_to (some g) t a = elim (t g).fd_inode [ none ↦ 0 | some b ↦ if a == b then 1 else 0 ]

-- How many of a number of descriptors lead to the inode at `a`.
unfoldable pub refs : ℕ → ℕ → (ℕ → Option ℕ) → (ℕ → File) → ℕ → ℕ
refs zero fd table t a = 0
refs (suc left) fd table t a = leads_to (table fd) t a + refs left (fd + 1) table t a

leads_to_one : (o : Option ℕ) (t : ℕ → File) (a : ℕ) → leads_to o t a ≤ 1
leads_to_one none t a = omega arith
leads_to_one (some g) t a = ground arith

pub refs_few :
    (left fd : ℕ) (table : ℕ → Option ℕ) (t : ℕ → File) (a : ℕ) → refs left fd table t a ≤ left
unfolding refs
refs_few zero fd table t a = omega arith
refs_few (suc left) fd table t a =
    omega (arith, leads_to_one (table fd) t a, refs_few left (fd + 1) table t a)

-- An entry is free, or leads to an inode through the table of open files.
abbrev pub Leads : Option ℕ → (ℕ → File) → Type 0
Leads o t =
    (o ≡ none)
    ⊎ ((g : ℕ) × (a : ℕ) × (o ≡ some g) × (g < max_file_open) × ((t g).fd_inode ≡ some a))

-- The inodes with more openings.
pub record Counted (n : ℕ → ℕ) (s s' : Files) : Type 0 where
  pub inodes :
      (a : ℕ) → s'.inodes a ≡ record (s.inodes a) { i_open_cnts = (s.inodes a).i_open_cnts + n a }
  pub file_table : s'.file_table ≡ s.file_table
  pub fd_table : s'.fd_table ≡ s.fd_table
  pub links : s'.links ≡ s.links
  pub freed : s'.freed ≡ s.freed

module _ (left fd : ℕ) (t : Task) (s : Files) where
  count_none : t.fd_table fd ≡ none → count_loop (suc left) fd t s ≡ count_loop left (fd + 1) t s
  unfolding count_loop
  count_none e = rw e refl

  count_some :
      (g a : ℕ)
      → t.fd_table fd ≡ some g
      → g < max_file_open
      → (s.file_table g).fd_inode ≡ some a
      → count_loop (suc left) fd t s ≡ count_loop left (fd + 1) t (open_again a s)
  unfolding count_loop
  count_some g a e lt inode =
      let small : ltb g max_file_open ≡ true = ground arith in rw (e, small, inode) refl

  ref_none :
      (a : ℕ)
      → t.fd_table fd ≡ none
      → refs (suc left) fd t.fd_table s.file_table a ≡ refs left (fd + 1) t.fd_table s.file_table a
  unfolding refs
  ref_none a e = rw e (omega arith)

  ref_some :
      (g a b : ℕ)
      → t.fd_table fd ≡ some g
      → (s.file_table g).fd_inode ≡ some a
      → refs (suc left) fd t.fd_table s.file_table b
        ≡ (if b == a then 1 else 0) + refs left (fd + 1) t.fd_table s.file_table b
  unfolding refs
  ref_some g a b e inode = rw (e, leads_to, inode) refl

again_count :
    (a b : ℕ) (s : Files)
    → (s.inodes b).i_open_cnts + 1 < 2 ^ 32
    → (open_again a s).inodes b
      ≡ record (s.inodes b) { i_open_cnts = (s.inodes b).i_open_cnts + (if b == a then 1 else 0) }
again_count a b s small = elim (Bool-cases (b == a)) [
  | inl e ↦ rw e (ap (λ n. record (s.inodes b) { i_open_cnts = n }) (omega arith))
  | inr e ↦ rw e (ap (λ n. record (s.inodes b) { i_open_cnts = n }) (omega arith))
]

count_loop_lem :
    (left fd : ℕ) (t : Task) (s : Files)
    → ((i : ℕ) → fd ≤ i → i < fd + left → Leads (t.fd_table i) s.file_table)
    → ((a : ℕ) → (s.inodes a).i_open_cnts + left < 2 ^ 32)
    → (s' : Files) × (count_loop left fd t s ≡ ok s')
      × Counted (refs left fd t.fd_table s.file_table) s s'
count_loop_lem zero fd t s valid small = (
  s,
  (unfold count_loop in refl),
  record {
    inodes = λ a. unfold refs in ap (λ n. record (s.inodes a) { i_open_cnts = n }) (omega arith);
    file_table = refl;
    fd_table = refl;
    links = refl;
    freed = refl;
  },
)
count_loop_lem (suc left) fd t s valid small = elim (valid fd (omega arith) (omega arith)) [
  | inl e ↦
      let (s', run, c) =
        count_loop_lem left (fd + 1) t s (λ i le lt. valid i (omega arith) (omega arith))
          (λ a. omega (arith, small a)) in
      (
        s',
        count_none left fd t s e ∙ run,
        record {
          inodes = λ a.
              c.inodes a
              ∙ ap (λ n. record (s.inodes a) { i_open_cnts = n })
                  (let e = ref_none left fd t s a e in omega (arith, e));
          file_table = c.file_table;
          fd_table = c.fd_table;
          links = c.links;
          freed = c.freed;
        },
      )
  | inr (g, a, e, lt, inode) ↦
      let (s', run, c) =
        count_loop_lem left (fd + 1) t (open_again a s)
          (λ i le lt. valid i (omega arith) (omega arith))
          (λ b.
            (let e =
                ap (λ (x : Inode). x.i_open_cnts) (again_count a b s (omega (arith, small b))) in
              ground (arith, e, small b))) in
      (
        s',
        count_some left fd t s g a e lt inode ∙ run,
        record {
          inodes = λ b.
              c.inodes b
              ∙ (ap
                    (λ (x : Inode). record x {
                      i_open_cnts = x.i_open_cnts + refs left (fd + 1) t.fd_table s.file_table b;
                    })
                    (again_count a b s (omega (arith, small b)))
                  ∙ ap (λ n. record (s.inodes b) { i_open_cnts = n })
                      (let r = ref_some left fd t s g a b e inode in omega (arith, r)));
          file_table = c.file_table;
          fd_table = c.fd_table;
          links = c.links;
          freed = c.freed;
        },
      )
]

-- `update_inode_open_cnts` of a process whose descriptors 3 to 7 are free or lead to inodes raises
-- the count of each inode by the number of them that lead to it, and changes nothing else.
pub update_inode_open_cnts_lem :
    (t : Task) (s : Files)
    → ((i : ℕ) → 3 ≤ i → i < 8 → Leads (t.fd_table i) s.file_table)
    → ((a : ℕ) → (s.inodes a).i_open_cnts + 5 < 2 ^ 32)
    → (s' : Files) × (update_inode_open_cnts t s ≡ ok s')
      × Counted (refs 5 3 t.fd_table s.file_table) s s'
unfolding update_inode_open_cnts
update_inode_open_cnts_lem t s valid small = count_loop_lem 5 3 t s valid small
