-- ===== src/Thread/Mutex/Owner.antt =====
-- The steps of a thread inside a lock of ch15/thread/sync.c keep the invariant of the machine.
use os_elephant.Base.{
  ◌+◌, ◌-◌, ◌^◌, ◌<◌, ◌≡◌, refl, true, some, none, arith, Bool-cases, inl, inr, ltb, ◌==◌, add32,
}
use os_elephant.Thread.Sync.{
  acquire_test, acquire_again, acquire_name, acquire_count, release_check, release_test,
  release_drop, release_unname, release_uncount,
}
use os_elephant.Thread.Mutex.Machine.{
  taken, named, holding, again, releasing, dropping, clearing, unnamed, leaving, Machine, cur, move,
  enter, count_again, name_holder, count_first, release, test_count, drop_one, clear_holder,
  clear_count, At,
}
use os_elephant.Thread.Mutex.Invariant.{
  IsSound, Goes, Stands-at, set_lock-IsSound, owner-IsSound, holder_held, other_held,
}

module _ (m : Machine) (s : IsSound m) where
  pub enter_holding : At m holding → IsSound (enter m)
  unfolding enter acquire_test
  enter_holding at =
      let (mine, some_times) = Stands-at m holding s at.0 in
      rw (holder_held m mine)
        (owner-IsSound m holding again m.lock.repeat_nr s at.0 refl refl mine (mine, some_times))

  pub again_lem : At m again → m.lock.repeat_nr + 1 < 2 ^ 32 → IsSound (count_again m)
  unfolding count_again acquire_again
  again_lem at small =
      let (mine, some_times) = Stands-at m again s at.0 in
      owner-IsSound m again holding (add32 m.lock.repeat_nr 1) s at.0 refl refl mine
        (mine, omega (arith, small))

  pub name_holder_lem : At m taken → IsSound (name_holder m)
  unfolding name_holder acquire_name
  name_holder_lem at =
      let (nobody, zero_times) = Stands-at m taken s at.0 in
      set_lock-IsSound m taken named (some (cur m)) m.lock.repeat_nr s at.0 refl refl
        (refl, zero_times) (other_held (cur m))

  pub count_first_lem : At m named → Goes (count_first m)
  unfolding count_first acquire_count
  count_first_lem at =
      let (mine, zero_times) = Stands-at m named s at.0 in
      (
        _,
        rw zero_times refl,
        owner-IsSound m named holding 1 s at.0 refl refl mine (mine, omega arith),
      )

  pub release_lem : At m holding → Goes (release m)
  unfolding release release_check
  release_lem at =
      let (mine, some_times) = Stands-at m holding s at.0 in
      (
        move m releasing,
        rw (holder_held m mine) refl,
        owner-IsSound m holding releasing m.lock.repeat_nr s at.0 refl refl mine (mine, some_times),
      )

  pub test_count_lem : At m releasing → Goes (test_count m)
  unfolding test_count release_test
  test_count_lem at =
      let (mine, some_times) = Stands-at m releasing s at.0 in
      elim (Bool-cases (ltb 1 m.lock.repeat_nr)) [
        | inl e ↦ (
          move m dropping,
          rw e refl,
          owner-IsSound m releasing dropping m.lock.repeat_nr s at.0 refl refl mine
              (mine, ground arith),
        )
        | inr e ↦
            let once : m.lock.repeat_nr ≡ 1 = ground (arith, some_times) in
            let is_once : (m.lock.repeat_nr == 1) ≡ true = ground arith in
            (
              move m clearing,
              rw (e, is_once) refl,
              owner-IsSound m releasing clearing m.lock.repeat_nr s at.0 refl refl mine
                  (mine, once),
            )
      ]

  pub drop_one_lem : At m dropping → IsSound (drop_one m)
  unfolding drop_one release_drop
  drop_one_lem at =
      let (mine, often) = Stands-at m dropping s at.0 in
      owner-IsSound m dropping holding (m.lock.repeat_nr - 1) s at.0 refl refl mine
        (mine, omega (arith, often))

  pub clear_holder_lem : At m clearing → IsSound (clear_holder m)
  unfolding clear_holder release_unname
  clear_holder_lem at =
      let (mine, once) = Stands-at m clearing s at.0 in
      set_lock-IsSound m clearing unnamed none m.lock.repeat_nr s at.0 refl refl (refl, once)
        (λ p ne. refl)

  pub clear_count_lem : At m unnamed → IsSound (clear_count m)
  unfolding clear_count release_uncount
  clear_count_lem at =
      let (nobody, once) = Stands-at m unnamed s at.0 in
      set_lock-IsSound m unnamed leaving m.lock.holder 0 s at.0 refl refl (nobody, refl)
        (λ p ne. rw nobody refl)
