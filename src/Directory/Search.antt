-- ===== src/Directory/Search.antt =====
-- `search_dir_entry` of ch15/fs/dir.c against the names that the blocks of the directory hold.
use os_elephant.Base.{
  ℕ, zero, suc, ◌+◌, ◌*◌, ◌<◌, ◌≤◌, ◌≡◌, ◌≢◌, inl, inr, refl, sym, ap, ◌∙◌, true, false, List,
  length, Option, none, some, ◌==◌, ok, arith, Bool-cases, ==_iff,
}
use os_elephant.CString.{Memory, Sign, minus, same, plus}
use os_elephant.CString.Text.{CStr, strcmp-same_iff}
use os_elephant.Directory.{is_same, search_entries}

abbrev pub Names : Type 0
Names = ℕ → List ℕ

-- What the search of the entries from `k` on, up to the `n`-th one, returns.
abbrev pub EntryResult : ℕ → ℕ → ℕ → Names → List ℕ → Option ℕ → Type 0
EntryResult buf k n text t none = (i : ℕ) → k ≤ i → i < n → text i ≢ t
EntryResult buf k n text t (some p) =
    (i : ℕ) × (k ≤ i)
    × (i < n)
    × (p ≡ buf + i * 24)
    × (text i ≡ t)
    × ((j : ℕ) → k ≤ j → j < i → text j ≢ t)

same_text : (s t : List ℕ) (r : Sign) → (r ≡ same → s ≡ t) → is_same r ≡ true → s ≡ t
same_text s t minus f h = absurd (cc h)
same_text s t same f h = f refl
same_text s t plus f h = absurd (cc h)

not_same : (s t : List ℕ) (r : Sign) → (s ≡ t → r ≡ same) → is_same r ≡ false → s ≢ t
not_same s t minus f h e = absurd (cc (f e))
not_same s t same f h e = absurd (cc h)
not_same s t plus f h e = absurd (cc (f e))

-- The entries are searched in order.
pub search_entries_lem :
    (fuel left k n buf name : ℕ) (text : Names) (t : List ℕ) (m : Memory)
    → k + left ≡ n
    → buf ≢ 0
    → name ≢ 0
    → CStr m name t
    → ((i : ℕ) → i < n → CStr m (buf + i * 24) (text i))
    → ((i : ℕ) → i < n → length (text i) < fuel)
    → (r : Option ℕ) × (search_entries fuel left (buf + k * 24) name m ≡ ok r)
      × EntryResult buf k n text t r
unfolding search_entries
search_entries_lem fuel zero k n buf name text t m total nb nn named texts short =
    (none, refl, λ i lo hi. absurd (omega arith))
search_entries_lem fuel (suc left) k n buf name text t m total nb nn named texts short =
    let (r, run, iff) =
      strcmp-same_iff fuel (buf + k * 24) name m (text k) t (λ e. absurd (omega (arith, e))) nn
        (texts k (omega arith)) named (short k (omega arith)) in
    let (r', rest, found) =
      search_entries_lem fuel left (k + 1) n buf name text t m (omega arith) nb nn named texts
        short in
    let next : buf + k * 24 + 24 ≡ buf + (k + 1) * 24 = omega arith in
    elim (Bool-cases (is_same r)) [
      | inl e ↦ (
        some (buf + k * 24),
        rw (run, e) refl,
        (
          k,
          omega arith,
          omega arith,
          refl,
          same_text (text k) t r iff.0 e,
          λ j lo hi. absurd (omega arith),
        ),
      )
      | inr e ↦ (r', rw (run, e, next) rest, later r' found (not_same (text k) t r iff.1 e))
    ]
  where
    later :
        (r' : Option ℕ)
        → EntryResult buf (k + 1) n text t r'
        → text k ≢ t
        → EntryResult buf k n text t r'
    later none found ne = λ i lo hi. elim (Bool-cases (i == k)) [
      | inl e ↦ λ z. ne (sym (ap text ((==_iff _ _).0 e)) ∙ z)
      | inr e ↦ found i (ground arith) hi
    ]
    later (some p) (i, lo, hi, at_p, eq, firsts) ne = (
      i,
      omega arith,
      hi,
      at_p,
      eq,
      λ j jlo jhi. elim (Bool-cases (j == k)) [
        | inl e ↦ λ z. ne (sym (ap text ((==_iff _ _).0 e)) ∙ z)
        | inr e ↦ firsts j (ground arith) jhi
      ],
    )
