-- ===== src/KernelList/Tests.antt =====
-- A list of three elements, and the theorems at it.
use os_elephant.Base.{◌≡◌, refl, true, [], ◌∷◌, arith, ok}
use os_elephant.Base.Members.{has}
use os_elephant.KernelList.{Links, KList, list_init, list_push, list_append, list_remove, list_len}
use os_elephant.KernelList.Chain.{IsList}
use os_elephant.KernelList.Update.{list_append_lem, list_push_lem, list_remove_lem, list_init_lem}

abbrev l : KList
l = record { head = 1; tail = 2 }

abbrev blank : Links
blank = record { prev = λ i. 0; next = λ i. 0; intr = true }

-- The elements 11, 10, 12, put in by a push and two appends.
three : Links
three = list_append l 12 (list_push l 11 (list_append l 10 (list_init l blank)))

three-IsList : IsList three l (11 ∷ 10 ∷ 12 ∷ [])
unfolding three has
three-IsList =
    list_append_lem l 12 _
      (list_push_lem l 11 _ (10 ∷ [])
        (list_append_lem l 10 _ (list_init_lem l blank (omega arith)) refl) refl)
      refl

three_len : list_len 4 l three ≡ ok 3
unfolding three list_len list_append list_push list_init
three_len = refl

list_remove_lem_example : IsList (list_remove 10 three) l (11 ∷ 12 ∷ [])
list_remove_lem_example = list_remove_lem l three (11 ∷ []) 10 (12 ∷ []) three-IsList
