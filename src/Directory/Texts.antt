-- ===== src/Directory/Texts.antt =====
-- Names in memory and on the disk, for the functions of ch15/fs/dir.c.
use os_elephant.Base.{
  ℕ, ◌+◌, ◌*◌, ◌<◌, ◌≤◌, ◌≡◌, ◌≢◌, ◌⊎◌, inl, inr, refl, ap, ◌∙◌, Bool, true, false, ◌&&◌, List, [],
  ◌∷◌, length, ltb, leb, arith,
}
use os_elephant.CString.{Memory}
use os_elephant.CString.Text.{CStr, CStr-frame}
use os_elephant.CString.Copy.{within}
use os_elephant.Inode.{Bytes}
use os_elephant.Format.{dir_entry_bytes}
use os_elephant.FileIo.{block_size}
use os_elephant.Directory.{Dir, load_sector, dir_blocks}
use os_elephant.Directory.Search.{Names}

-- A text at one place in one memory and at another in another.
pub CStr-shift :
    (m m' : Memory) (p p' : ℕ) (s : List ℕ)
    → ((i : ℕ) → i ≤ length s → m' (p' + i) ≡ m (p + i))
    → CStr m p s
    → CStr m' p' s
CStr-shift m m' p p' [] h c = ap m' (omega arith) ∙ h 0 (omega arith) ∙ ap m (omega arith) ∙ c
CStr-shift m m' p p' (x ∷ s) h c = (
  ap m' (omega arith) ∙ h 0 (omega arith) ∙ ap m (omega arith) ∙ c.0,
  c.1,
  c.2,
  CStr-shift m m' (p + 1) (p' + 1) s
      (λ i le. ap m' (omega arith) ∙ h (i + 1) (omega arith) ∙ ap m (omega arith)) c.3,
)

pub load_in :
    (disk : Bytes) (lba buf o : ℕ) (m : Memory)
    → o < block_size
    → load_sector disk lba buf m (buf + o) ≡ disk (lba * block_size + o)
load_in disk lba buf o m h =
    let inside : (leb buf (buf + o) && ltb (buf + o) (buf + 512)) ≡ true = ground arith in
    rw inside (ap disk (omega arith))

-- An address that is not in the buffer.
abbrev pub Off : ℕ → ℕ → Type 0
Off buf a = (a < buf) ⊎ (buf + block_size ≤ a)

pub load-Off :
    (disk : Bytes) (lba buf a : ℕ) (m : Memory) → Off buf a → load_sector disk lba buf m a ≡ m a
load-Off disk lba buf a m (inl h) =
    let outside : (leb buf a && ltb a (buf + 512)) ≡ false = ground arith in rw outside refl
load-Off disk lba buf a m (inr h) =
    let outside : (leb buf a && ltb a (buf + 512)) ≡ false = ground arith in rw outside refl

-- The names in the blocks of a directory, each with its NUL inside its block.
pub record HasNames (fuel : ℕ) (dir : Dir) (text : ℕ → Names) : Type 0 where
  pub size : dir.vol.sb.dir_entry_size ≡ dir_entry_bytes
  pub named :
      (b i : ℕ)
      → b < 140
      → dir_blocks dir b ≢ 0
      → i < 21
      → CStr dir.vol.disk (dir_blocks dir b * block_size + i * dir_entry_bytes) (text b i)
  pub short :
      (b i : ℕ)
      → b < 140
      → i < 21
      → (length (text b i) < fuel) × (i * dir_entry_bytes + length (text b i) < block_size)

-- The name that is looked for, the buffer and the place of the result.
pub record HasArgs (buf name dir_e : ℕ) (t : List ℕ) (m : Memory) : Type 0 where
  pub named : CStr m name t
  pub buf_ok : buf ≢ 0
  pub name_ok : name ≢ 0
  pub dir_e_ok : dir_e ≢ 0
  pub name_off : (name + length t < buf) ⊎ (buf + block_size ≤ name)
  pub dir_e_off : (dir_e + dir_entry_bytes ≤ buf) ⊎ (buf + block_size ≤ dir_e)

-- The memory behind a pass over a block differs in the buffer only.
pub HasArgs-kept :
    (buf name dir_e : ℕ) (t : List ℕ) (m m' : Memory)
    → ((a : ℕ) → Off buf a → m' a ≡ m a)
    → HasArgs buf name dir_e t m
    → HasArgs buf name dir_e t m'
HasArgs-kept buf name dir_e t m m' kept h = record {
  named = CStr-frame m m' name t (λ q lo hi. kept q (off q lo hi h.name_off)) h.named;
  buf_ok = h.buf_ok;
  name_ok = h.name_ok;
  dir_e_ok = h.dir_e_ok;
  name_off = h.name_off;
  dir_e_off = h.dir_e_off;
}
  where
    off :
        (q : ℕ)
        → name ≤ q
        → q ≤ name + length t
        → (name + length t < buf) ⊎ (buf + block_size ≤ name)
        → Off buf q
    off q lo hi (inl e) = inl (omega arith)
    off q lo hi (inr e) = inr (omega arith)

pub within_at : (p size j : ℕ) → j < size → within p size (p + j) ≡ true
within_at p size j h = ground arith

pub within-Off : (buf a : ℕ) → Off buf a → within buf 512 a ≡ false
within-Off buf a (inl h) = ground arith
within-Off buf a (inr h) = ground arith

-- What the search from block `b` on returns.
abbrev pub BlockResult : Dir → (ℕ → Names) → List ℕ → ℕ → ℕ → Bool → Memory → Type 0
BlockResult dir text t dir_e b false m' =
    (c i : ℕ) → b ≤ c → c < 140 → dir_blocks dir c ≢ 0 → i < 21 → text c i ≢ t
BlockResult dir text t dir_e b true m' =
    (c i : ℕ) × (b ≤ c)
    × (c < 140)
    × (dir_blocks dir c ≢ 0)
    × (i < 21)
    × (text c i ≡ t)
    × ((c' j : ℕ)
        → b ≤ c'
        → c' < 140
        → dir_blocks dir c' ≢ 0
        → j < 21
        → c' * 21 + j < c * 21 + i
        → text c' j ≢ t)
    × ((j : ℕ)
        → j < dir_entry_bytes
        → m' (dir_e + j) ≡ dir.vol.disk (dir_blocks dir c * block_size + i * dir_entry_bytes + j))
