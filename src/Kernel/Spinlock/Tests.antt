-- ===== src/Kernel/Spinlock/Tests.antt =====
-- A run of the lock.
use rpitos.Prelude.{ℕ, ◌≡◌, refl, arith}
use rpitos.Kernel.Spinlock.Cores.{
  System, Reach, start, later, pick, begin, look, take, show, skip, see, pass, enter,
}
use rpitos.Kernel.Spinlock.Exclusion.{spinlock-excludes}
use rpitos.Kernel.Spinlock.{announce, publish, has_chosen, goes_before}

-- Core 0 alone, from outside to inside.
abbrev solo : (s : System) × Reach s
unfolding announce publish has_chosen goes_before
solo = (
  _,
  later
      (later
        (later
          (later
            (later
              (later
                (later
                  (later
                    (later
                      (later
                        (later
                          (later
                            (later
                              (later (later (start) (pick 0 (omega arith) (begin refl)))
                                (pick 0 (omega arith) (look (omega arith) refl)))
                              (pick 0 (omega arith) (look (omega arith) refl)))
                            (pick 0 (omega arith) (look (omega arith) refl)))
                          (pick 0 (omega arith) (look (omega arith) refl)))
                        (pick 0 (omega arith) (take refl refl)))
                      (pick 0 (omega arith) (show refl)))
                    (pick 0 (omega arith) (skip refl refl)))
                  (pick 0 (omega arith) (see (omega arith) (omega arith) refl refl)))
                (pick 0 (omega arith) (pass refl refl)))
              (pick 0 (omega arith) (see (omega arith) (omega arith) refl refl)))
            (pick 0 (omega arith) (pass refl refl)))
          (pick 0 (omega arith) (see (omega arith) (omega arith) refl refl)))
        (pick 0 (omega arith) (pass refl refl)))
      (pick 0 (omega arith) (enter refl refl)),
)

spinlock-excludes_example : ◌≡◌ {A = ℕ} 0 0
unfolding announce publish has_chosen goes_before
spinlock-excludes_example =
    spinlock-excludes solo.1 (omega arith) 0 0 (omega arith) (omega arith) refl refl
