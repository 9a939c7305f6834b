-- ===== src/KernelList.antt =====
-- The intrusive doubly linked list of the kernel: ch15/lib/kernel/list.c and list.h. An element is
-- the address of its `struct list_elem`; the two sentinels of a list are elements as well.
pub mod Chain
pub mod Update
pub mod Walk
mod Tests
use os_elephant.Base.{
  ℕ, zero, suc, ◌+◌, Bool, true, false, Option, none, some, ◌==◌, if◌then◌else◌, Outcome, ok,
  out_of_fuel,
}
use os_elephant.Interrupt.{intr_disable, intr_set_status}

-- The `prev` and `next` of every element, and the interrupt flag.
pub record Links : Type 0 where
  pub prev : ℕ → ℕ
  pub next : ℕ → ℕ
  pub intr : Bool

-- `struct list`, by the addresses of its sentinels.
pub record KList : Type 0 where
  pub head : ℕ
  pub tail : ℕ

abbrev pub update : (ℕ → ℕ) → ℕ → ℕ → ℕ → ℕ
update f p v q = if p == q then v else f q

abbrev pub set_next : ℕ → ℕ → Links → Links
set_next p v s = record s { next = update s.next p v }

abbrev pub set_prev : ℕ → ℕ → Links → Links
set_prev p v s = record s { prev = update s.prev p v }

abbrev pub set_intr : Bool → Links → Links
set_intr v s = record s { intr = v }

-- `NULL` is 0.
unfoldable pub list_init : KList → Links → Links
list_init l s =
    let s = set_prev l.head 0 s in
    let s = set_next l.head l.tail s in let s = set_prev l.tail l.head s in set_next l.tail 0 s

unfoldable pub list_insert_before : ℕ → ℕ → Links → Links
unfolding intr_disable intr_set_status
list_insert_before before elem s =
    let (old_status, off) = intr_disable s.intr in
    let s = set_intr off s in
    let s = set_next (s.prev before) elem s in
    let s = set_prev elem (s.prev before) s in
    let s = set_next elem before s in
    let s = set_prev before elem s in set_intr (intr_set_status old_status s.intr).1 s

unfoldable pub list_push : KList → ℕ → Links → Links
unfolding list_insert_before
list_push l elem s = list_insert_before (s.next l.head) elem s

unfoldable pub list_append : KList → ℕ → Links → Links
unfolding list_insert_before
list_append l elem s = list_insert_before l.tail elem s

unfoldable pub list_remove : ℕ → Links → Links
unfolding intr_disable intr_set_status
list_remove pelem s =
    let (old_status, off) = intr_disable s.intr in
    let s = set_intr off s in
    let s = set_next (s.prev pelem) (s.next pelem) s in
    let s = set_prev (s.next pelem) (s.prev pelem) s in
    set_intr (intr_set_status old_status s.intr).1 s

-- The element, and the links without it.
unfoldable pub list_pop : KList → Links → ℕ × Links
unfolding list_remove
list_pop l s = let elem = s.next l.head in (elem, list_remove elem s)

unfoldable pub list_empty : KList → Links → Bool
list_empty l s = s.next l.head == l.tail

-- `while (elem != &plist->tail)`, on fuel
unfoldable pub len_loop : ℕ → ℕ → Links → ℕ → ℕ → Outcome ℕ
len_loop zero tail s elem length = out_of_fuel
len_loop (suc fuel) tail s elem length =
    let rest = len_loop fuel tail s (s.next elem) (length + 1) in
    if elem == tail then ok length else rest

unfoldable pub list_len : ℕ → KList → Links → Outcome ℕ
unfolding len_loop
list_len fuel l s = len_loop fuel l.tail s (s.next l.head) 0

unfoldable pub find_loop : ℕ → ℕ → ℕ → Links → ℕ → Outcome Bool
find_loop zero tail obj s elem = out_of_fuel
find_loop (suc fuel) tail obj s elem =
    let rest = find_loop fuel tail obj s (s.next elem) in
    if elem == tail then ok false else if elem == obj then ok true else rest

unfoldable pub elem_find : ℕ → KList → ℕ → Links → Outcome Bool
unfolding find_loop
elem_find fuel l obj s = find_loop fuel l.tail obj s (s.next l.head)

unfoldable pub traversal_loop : ℕ → ℕ → (ℕ → ℕ → Bool) → ℕ → Links → ℕ → Outcome (Option ℕ)
traversal_loop zero tail func arg s elem = out_of_fuel
traversal_loop (suc fuel) tail func arg s elem =
    let rest = traversal_loop fuel tail func arg s (s.next elem) in
    if elem == tail then ok none else if func elem arg then ok (some elem) else rest

-- `func` is a callback that only reads; `none` stands for `NULL`.
unfoldable pub list_traversal : ℕ → KList → (ℕ → ℕ → Bool) → ℕ → Links → Outcome (Option ℕ)
unfolding traversal_loop list_empty
list_traversal fuel l func arg s =
    let rest = traversal_loop fuel l.tail func arg s (s.next l.head) in
    if list_empty l s then ok none else rest
