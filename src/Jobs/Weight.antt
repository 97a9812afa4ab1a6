-- ===== src/Jobs/Weight.antt =====
-- The order of jobs: a total preorder, and what weight and niceness are where nothing overflows.
use ktest.Prelude.{◌+◌, ◌^◌, ◌≤◌, ◌<◌, ◌≢◌, arith, Ordering}
use ktest.Prelude.Cmp.{IsOrder, by_key-IsOrder, then-IsOrder, compare-IsOrder}
use ktest.Text.Order.{cmp-IsOrder}
use ktest.Jobs.{Job, job_weight, biased, job_cmp}

-- The comparator is legal for `sort_by`: comparing the other way round gives the mirror image, and
-- at most is transitive.
pub job_cmp-IsOrder : IsOrder job_cmp
unfolding job_cmp
job_cmp-IsOrder =
    then-IsOrder
      (then-IsOrder
        (then-IsOrder
          (then-IsOrder
            (then-IsOrder (by_key-IsOrder job_weight (by_key-IsOrder biased compare-IsOrder))
              (by_key-IsOrder (λ (j : Job). j.key.commit) cmp-IsOrder))
            (by_key-IsOrder (λ (j : Job). j.key.test) cmp-IsOrder))
          (by_key-IsOrder (λ (j : Job). j.key.kernel) cmp-IsOrder))
        (by_key-IsOrder (λ (j : Job). j.key.env) cmp-IsOrder))
      (by_key-IsOrder (λ (j : Job). j.duration) compare-IsOrder)

-- Where age and niceness stay below 2^62, a job that is not sorted behind another has at most its
-- age plus niceness.
job_cmp-weight :
    (a b : Job)
    → a.age < 2 ^ 62
    → a.nice < 2 ^ 62
    → b.age < 2 ^ 62
    → b.nice < 2 ^ 62
    → job_cmp a b ≢ Ordering.gt
    → a.age + a.nice ≤ b.age + b.nice
unfolding job_cmp
job_cmp-weight a b h h' k k' n = ground arith
