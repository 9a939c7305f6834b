-- ===== src/Ide/Chain.antt =====
-- Partitions that `partition_scan` of ch15/device/ide.c finds.
use mathlib.Core.List.{append_assoc}
use os_elephant.Base.{
  ℕ, zero, suc, ◌+◌, ◌-◌, ◌<◌, ◌≤◌, ◌≡◌, ◌≢◌, inl, inr, refl, ap, ◌∙◌, true, ltb, leb,
  if◌then◌else◌, Outcome, ok, panic, arith, add32, List, [], ◌∷◌, ◌++◌, length, take, neq_false,
  Bool-cases,
}
use os_elephant.Ide.Partition.{
  Entry, DiskPartition, PartScan, add_primary, add_logical, scan_extended, scan_loop,
  partition_scan,
}

-- The first entry of a sector is a logical partition, and the last two are empty.
pub record Holds (table : ℕ → ℕ → Entry) (lba : ℕ) (part : ℕ × ℕ) : Type 0 where
  pub own : lba ≢ 0
  pub used : (table lba 0).fs_type ≢ 0
  pub plain : (table lba 0).fs_type ≢ 5
  pub start : add32 lba (table lba 0).start_lba ≡ part.0
  pub size : (table lba 0).sec_cnt ≡ part.1
  pub third : (table lba 2).fs_type ≡ 0
  pub fourth : (table lba 3).fs_type ≡ 0

-- Sector `lba` holds an entry, then a link to the rest of the chain or nothing, then nothing: the
-- entry's start counts from the sector, and the link's from the base.
abbrev pub Chain : (ℕ → ℕ → Entry) → ℕ → ℕ → List (ℕ × ℕ) → Type 0
Chain table base lba [] = Unit {0}
Chain table base lba (part ∷ []) = Holds table lba part × ((table lba 1).fs_type ≡ 0)
Chain table base lba (part ∷ (next ∷ parts)) =
    Holds table lba part
    × ((table lba 1).fs_type ≡ 5)
    × Chain table base (add32 (table lba 1).start_lba base) (next ∷ parts)

-- The partitions of a chain, numbered on from `l_no`.
abbrev pub logical_from : ℕ → List (ℕ × ℕ) → List DiskPartition
logical_from l_no [] = []
logical_from l_no (part ∷ parts) =
    record { start_lba = part.0; sec_cnt = part.1; number = l_no + 5 }
    ∷ logical_from (l_no + 1) parts

-- What the scan of a chain adds: no more than eight logical partitions in all.
abbrev pub found : List (ℕ × ℕ) → PartScan → PartScan
found parts s = record s {
  l_no = s.l_no + length (take (8 - s.l_no) parts);
  partition_list = s.partition_list ++ logical_from s.l_no (take (8 - s.l_no) parts);
}

abbrev one_more : ℕ × ℕ → PartScan → PartScan
one_more part s = record s {
  l_no = s.l_no + 1;
  partition_list =
      s.partition_list
      ++ (record { start_lba = part.0; sec_cnt = part.1; number = s.l_no + 5 } ∷ []);
}

module _ (table : ℕ → ℕ → Entry) (scan : ℕ → PartScan → Outcome PartScan) (lba : ℕ) (part : ℕ × ℕ)
    (h : Holds table lba part) where
  own_step :
      (s : PartScan)
      → s.l_no < 8
      → scan_loop scan (table lba) lba 4 0 s ≡ (
          if leb 8 (s.l_no + 1)
          then ok (one_more part s)
          else scan_loop scan (table lba) lba 3 1 (one_more part s))
  unfolding scan_loop add_logical
  own_step s lt =
      let t1 = neq_false _ _ h.plain in
      let t2 = neq_false _ _ h.used in
      let t3 = neq_false _ _ h.own in
      let t4 : ltb s.l_no 8 ≡ true = ground arith in rw (t1, t2, t3, t4, h.start, h.size) refl

  empty_rest : (s : PartScan) → scan_loop scan (table lba) lba 2 2 s ≡ ok s
  unfolding scan_loop
  empty_rest s = rw (h.third, h.fourth) refl

  last_step :
      (s : PartScan) → (table lba 1).fs_type ≡ 0 → scan_loop scan (table lba) lba 3 1 s ≡ ok s
  unfolding scan_loop
  last_step s e = rw (e, h.third, h.fourth) refl

  link_step :
      (s s' : PartScan)
      → (table lba 1).fs_type ≡ 5
      → s.ext_lba_base ≢ 0
      → scan (add32 (table lba 1).start_lba s.ext_lba_base) s ≡ ok s'
      → scan_loop scan (table lba) lba 3 1 s ≡ ok s'
  unfolding scan_loop scan_extended
  link_step s s' e base run = let t = neq_false _ _ base in rw (e, t, run, h.third, h.fourth) refl

found_more :
    (part : ℕ × ℕ) (parts : List (ℕ × ℕ)) (s : PartScan)
    → s.l_no + 1 < 8
    → found parts (one_more part s) ≡ found (part ∷ parts) s
found_more part parts s lt =
    let e : 8 - s.l_no ≡ suc (8 - (s.l_no + 1)) = omega arith in
    let n = length (take (8 - (s.l_no + 1)) parts) in
    let more : s.l_no + 1 + n ≡ s.l_no + suc n = omega arith in
    rw
      (
        e,
        more,
        append_assoc s.partition_list
            (record { start_lba = part.0; sec_cnt = part.1; number = s.l_no + 5 } ∷ [])
            (logical_from (s.l_no + 1) (take (8 - (s.l_no + 1)) parts)),
      )
      refl

found_full :
    (part : ℕ × ℕ) (parts : List (ℕ × ℕ)) (s : PartScan)
    → s.l_no ≡ 7
    → one_more part s ≡ found (part ∷ parts) s
found_full part parts s full = let e : 8 - s.l_no ≡ 1 = omega arith in rw e refl

take_nil : (n : ℕ) → take {A = ℕ × ℕ} n [] ≡ []
take_nil zero = refl
take_nil (suc n) = refl

found_last : (part : ℕ × ℕ) (s : PartScan) → s.l_no < 8 → one_more part s ≡ found (part ∷ []) s
found_last part s lt =
    let e : 8 - s.l_no ≡ suc (7 - s.l_no) = omega arith in rw (e, take_nil (7 - s.l_no)) refl

-- `partition_scan` of a chain of extended sectors, each with one logical partition and a link whose
-- start counts from the base (not 0) that the scan has, returns with fuel for their number: from
-- the number the scan stands at, below eight, on, the logical partitions of the chain are added to
-- the list in order, each at its sector's number plus its start, and those that would be behind the
-- eighth are not.
pub partition_scan_lem :
    (table : ℕ → ℕ → Entry) (fuel lba : ℕ) (parts : List (ℕ × ℕ)) (s : PartScan)
    → s.ext_lba_base ≢ 0
    → s.l_no < 8
    → 0 < length parts
    → length parts ≤ fuel
    → Chain table s.ext_lba_base lba parts
    → partition_scan table fuel lba s ≡ ok (found parts s)
unfolding partition_scan
partition_scan_lem table zero lba [] s nz lt some enough chain = absurd (omega arith)
partition_scan_lem table zero lba (part ∷ parts) s nz lt some enough chain = absurd (omega arith)
partition_scan_lem table (suc fuel) lba [] s nz lt some enough chain = absurd (omega arith)
partition_scan_lem table (suc fuel) lba (part ∷ []) s nz lt some enough chain =
    own_step table (partition_scan table fuel) lba part chain.0 s lt
    ∙ elim (Bool-cases (leb 8 (s.l_no + 1))) [
      | inl full ↦ rw full (ap ok (found_full part [] s (ground arith)))
      | inr less ↦ rw less (
          last_step table (partition_scan table fuel) lba part chain.0 (one_more part s) chain.1
          ∙ ap ok (found_last part s lt))
    ]
partition_scan_lem table (suc fuel) lba (part ∷ (next ∷ parts)) s nz lt some enough chain =
    own_step table (partition_scan table fuel) lba part chain.0 s lt
    ∙ elim (Bool-cases (leb 8 (s.l_no + 1))) [
      | inl full ↦ rw full (ap ok (found_full part (next ∷ parts) s (ground arith)))
      | inr less ↦ rw less (
          link_step table (partition_scan table fuel) lba part chain.0 (one_more part s) _ chain.1
            nz
            (partition_scan_lem table fuel (add32 (table lba 1).start_lba s.ext_lba_base)
              (next ∷ parts) (one_more part s) nz (ground arith) (omega arith) (omega arith)
              chain.2)
          ∙ ap ok (found_more part (next ∷ parts) s (ground arith)))
    ]

-- A disk whose first sector has four primary partitions stops the machine: `partition_scan` of it
-- is a panic for any sizes and places of the four.
pub partition_scan_four :
    (table : ℕ → ℕ → Entry) (fuel : ℕ) (s : PartScan)
    → s.p_no ≡ 0
    → ((i : ℕ) → i < 4 → ((table 0 i).fs_type ≢ 0) × ((table 0 i).fs_type ≢ 5))
    → partition_scan table (suc fuel) 0 s ≡ panic
unfolding partition_scan scan_loop add_primary
partition_scan_four table fuel s first used =
    let t = λ (i : ℕ) (lt : i < 4). neq_false _ _ (used i lt).0 in
    let u = λ (i : ℕ) (lt : i < 4). neq_false _ _ (used i lt).1 in
    rw
      (
        first,
        t 0 (omega arith),
        u 0 (omega arith),
        t 1 (omega arith),
        u 1 (omega arith),
        t 2 (omega arith),
        u 2 (omega arith),
        t 3 (omega arith),
        u 3 (omega arith),
      )
      refl
