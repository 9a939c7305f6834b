-- ===== src/FileTable/Seek.antt =====
-- Where `sys_lseek` of ch15/fs/fs.c lets a file stand.
use os_elephant.Base.{
  ℕ, ◌+◌, ◌-◌, ◌%◌, ◌^◌, ◌<◌, ◌≡◌, refl, ap, ◌∙◌, Bool, true, false, ◌||◌, Option, none, some, ltb,
  leb, if◌then◌else◌, ok, arith,
}
use os_elephant.FileTable.{
  Files, Whence, seek_set, seek_cur, seek_end, signed, set_file, seek_file, sys_lseek,
  max_file_open, max_files_open_per_proc,
}

-- The place that an offset counts from.
abbrev pub base_of : Whence → ℕ → ℕ → ℕ
base_of seek_set pos size = 0
base_of seek_cur pos size = pos
base_of seek_end pos size = size

range_test :
    (size p : ℕ)
    → size < 2 ^ 31
    → p < 2 ^ 32
    → (leb (2 ^ 31) p || ltb (signed ((size + 2 ^ 32 - 1) % 2 ^ 32)) (signed p))
      ≡ (if ltb p size then false else true)
range_test size p hs hp = ground arith

in_range :
    (size q p : ℕ) (A : Type 0) (x : ℕ → A) (y : A)
    → q ≡ p
    → size < 2 ^ 31
    → p < 2 ^ 32
    → (if leb (2 ^ 31) q || ltb (signed ((size + 2 ^ 32 - 1) % 2 ^ 32)) (signed q) then y else x q)
      ≡ (if ltb p size then x p else y)
in_range size q p A x y e hs hp =
    ap
      (λ q.
        if leb (2 ^ 31) q || ltb (signed ((size + 2 ^ 32 - 1) % 2 ^ 32)) (signed q) then y else x q)
      e
    ∙ ap (λ b. if b then y else x p) (range_test size p hs hp)
    ∙ flip (ltb p size)
  where
    flip : (b : Bool) → (if (if b then false else true) then y else x p) ≡ (if b then x p else y)
    flip true = refl
    flip false = refl

-- On an open descriptor, in a file below 2 GB, the two signed tests let through exactly the
-- positions inside the file: there the file stands after the call, and else nothing changes.
pub sys_lseek_lem :
    (fd g a offset : ℕ) (whence : Whence) (s : Files)
    → fd < max_files_open_per_proc
    → s.fd_table fd ≡ some g
    → g < max_file_open
    → (s.file_table g).fd_inode ≡ some a
    → (s.inodes a).i_size < 2 ^ 31
    → offset < 2 ^ 32
    → let p = (base_of whence (s.file_table g).fd_pos (s.inodes a).i_size + offset) % 2 ^ 32 in
      sys_lseek fd offset whence s
      ≡ ok (
          if ltb p (s.inodes a).i_size
          then (some p, set_file g (record (s.file_table g) { fd_pos = p }) s)
          else (none, s))
unfolding sys_lseek
sys_lseek_lem fd g a offset whence s hfd e hg ei hs ho =
    let t1 : ltb fd (2 ^ 31) ≡ true = ground arith in
    let t2 : ltb fd max_files_open_per_proc ≡ true = ground arith in
    let t3 : ltb g max_file_open ≡ true = ground arith in
    rw (t1, t2, e, t3)
      (ap (seek_file g offset whence s) ei
        ∙ ap ok (
            in_range (s.inodes a).i_size _ _ (Option ℕ × Files)
              (λ q. (some q, set_file g (record (s.file_table g) { fd_pos = q }) s)) (none, s)
              (target whence) hs (omega arith)))
  where
    target :
        (whence : Whence)
        → (elim whence [
          | seek_set ↦ offset
          | seek_cur ↦ ((s.file_table g).fd_pos + offset) % 2 ^ 32
          | seek_end ↦ ((s.inodes a).i_size + offset) % 2 ^ 32
        ])
          ≡ (base_of whence (s.file_table g).fd_pos (s.inodes a).i_size + offset) % 2 ^ 32
    target seek_set = omega arith
    target seek_cur = refl
    target seek_end = refl
