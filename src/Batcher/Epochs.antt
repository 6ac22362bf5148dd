-- ===== src/Batcher/Epochs.antt =====
-- What every reachable state of a batcher with its threads satisfies (template/batcher.c).
use transactional_memory.Base.{
  ℕ, zero, suc, ◌+◌, ◌^◌, ◌<◌, ◌≡◌, ◌≢◌, refl, sym, ◌∙◌, ap, List, ◌∷◌, ◌++◌, length, ℕ_discrete,
  arith,
}
use transactional_memory.Batcher.{Batcher, count_out, decrement}
use transactional_memory.Batcher.Threads.{
  Status, outside, waiting, inside, is_inside, is_waiting, count, System, left, after_enter, Step,
  enters, leaves, wakes_early, after_wake, Steps, none_yet, then_step, all_outside, start,
  IsCounted, count-append, length-replace, length-wake_all, inside-le-length, inside-wake_all,
  waiting-wake_all, enter_batcher_free, enter_batcher_busy, count_out_last, count_out_more,
}

module _ (b : Batcher) (xs ys : List Status) (early : ℕ) where
  abbrev with_status : Status → List Status
  with_status t = xs ++ t ∷ ys

  abbrev at_status : Status → System
  at_status t = record { batcher = b; threads = with_status t; early = early }

  module _ (c : IsCounted (at_status outside)) where
    enters_free : b.remaining ≡ 0 → IsCounted (after_enter b xs ys early)
    enters_free e = rw (enter_batcher_free b e) (record {
      remaining = omega (
        arith,
        e,
        c.remaining,
        count-append is_inside xs (outside ∷ ys),
        count-append is_inside xs (inside ∷ ys),
      );
      blocked = omega (
        arith,
        c.blocked,
        count-append is_waiting xs (outside ∷ ys),
        count-append is_waiting xs (inside ∷ ys),
      );
      served = λ z. absurd (omega (arith, z));
      few = rw (length-replace inside outside xs ys) c.few;
      epoch = c.epoch;
    })

    enters_busy : b.remaining ≢ 0 → IsCounted (after_enter b xs ys early)
    enters_busy ne = rw (enter_batcher_busy b ne) (record {
      remaining = omega (
        arith,
        c.remaining,
        count-append is_inside xs (outside ∷ ys),
        count-append is_inside xs (waiting ∷ ys),
      );
      blocked = omega (
        arith,
        c.blocked,
        c.remaining,
        c.few,
        count-append is_waiting xs (outside ∷ ys),
        count-append is_waiting xs (waiting ∷ ys),
        inside-le-length (with_status outside),
      );
      served = λ z. absurd (ne z);
      few = rw (length-replace waiting outside xs ys) c.few;
      epoch = c.epoch;
    })

  module _ (c : IsCounted (at_status inside)) where
    -- The decrement does not wrap.
    pub counted_down : (decrement b).remaining + early ≡ count is_inside (with_status outside)
    counted_down = omega (
      arith,
      c.remaining,
      c.few,
      more_remain,
      count-append is_inside xs (outside ∷ ys),
      count-append is_inside xs (inside ∷ ys),
      inside-le-length (with_status inside),
    )
      where
        more_remain : b.remaining ≢ 0
        more_remain z = omega (arith, (c.served z).0, count-append is_inside xs (inside ∷ ys))

    pub still_waiting : b.blocked ≡ count is_waiting (with_status outside) + early
    still_waiting = omega (
      arith,
      c.blocked,
      count-append is_waiting xs (outside ∷ ys),
      count-append is_waiting xs (inside ∷ ys),
    )

    leaves_last :
        (decrement b).remaining ≡ 0 → IsCounted (left (count_out b) (with_status outside) early)
    leaves_last e = rw (count_out_last b e) (record {
      remaining =
          omega (arith, e, counted_down, still_waiting, inside-wake_all (with_status outside));
      blocked = omega (arith, waiting-wake_all (with_status outside));
      served = λ z. (
        omega (arith, e, z, counted_down, still_waiting, inside-wake_all (with_status outside)),
        waiting-wake_all (with_status outside),
      );
      few = rw (length-wake_all (with_status outside), length-replace outside inside xs ys) c.few;
      epoch = omega (arith, c.epoch);
    })

    leaves_more :
        (decrement b).remaining ≢ 0 → IsCounted (left (count_out b) (with_status outside) early)
    leaves_more ne = rw (count_out_more b ne) (record {
      remaining = counted_down;
      blocked = still_waiting;
      served = λ z. absurd (ne z);
      few = rw (length-replace outside inside xs ys) c.few;
      epoch = c.epoch;
    })

  module _ (c : IsCounted (at_status waiting)) where
    wakes-IsCounted : IsCounted (after_wake b xs ys early)
    wakes-IsCounted = record {
      remaining = omega (
        arith,
        c.remaining,
        count-append is_inside xs (waiting ∷ ys),
        count-append is_inside xs (inside ∷ ys),
      );
      blocked = omega (
        arith,
        c.blocked,
        count-append is_waiting xs (waiting ∷ ys),
        count-append is_waiting xs (inside ∷ ys),
      );
      served =
          λ z. absurd (omega (arith, (c.served z).1, count-append is_waiting xs (waiting ∷ ys)));
      few = rw (length-replace inside waiting xs ys) c.few;
      epoch = c.epoch;
    }

pub same_threads :
    (s : System) (ts : List Status)
    → s.threads ≡ ts
    → IsCounted s
    → IsCounted (record { batcher = s.batcher; threads = ts; early = s.early })
same_threads s ts e c = record {
  remaining = c.remaining ∙ ap (count is_inside) e;
  blocked = omega (arith, c.blocked, ap (count is_waiting) e);
  served = λ z. (
    ap (count is_inside) (sym e) ∙ (c.served z).0,
    ap (count is_waiting) (sym e) ∙ (c.served z).1,
  );
  few = rw (sym e) c.few;
  epoch = c.epoch;
}

-- Each step keeps the counters right.
pub Step-IsCounted : (s s' : System) → Step s s' → IsCounted s → IsCounted s'
Step-IsCounted s s' (enters xs ys e e') c =
    let c' = same_threads s (xs ++ outside ∷ ys) e c in
    rw e' (elim (ℕ_discrete s.batcher.remaining 0) [
      | yes z ↦ enters_free s.batcher xs ys s.early c' z
      | no ne ↦ enters_busy s.batcher xs ys s.early c' ne
    ])
Step-IsCounted s s' (leaves xs ys e e') c =
    let c' = same_threads s (xs ++ inside ∷ ys) e c in
    rw e' (elim (ℕ_discrete (decrement s.batcher).remaining 0) [
      | yes z ↦ leaves_last s.batcher xs ys s.early c' z
      | no ne ↦ leaves_more s.batcher xs ys s.early c' ne
    ])
Step-IsCounted s s' (wakes_early xs ys e e') c =
    rw e' (wakes-IsCounted s.batcher xs ys s.early (same_threads s (xs ++ waiting ∷ ys) e c))

count-all_outside : (f : Status → ℕ) (n : ℕ) → f outside ≡ 0 → count f (all_outside n) ≡ 0
count-all_outside f zero e = refl
count-all_outside f (suc n) e = omega (arith, e, count-all_outside f n e)

length-all_outside : (n : ℕ) → length (all_outside n) ≡ n
length-all_outside zero = refl
length-all_outside (suc n) = ap suc (length-all_outside n)

-- For fewer than 2 ^ 31 threads, in every state that they reach by entering, leaving and waking up,
-- spuriously or not, in any order: with `early` spurious wake-ups since the last broadcast, the
-- threads inside are `remaining` and those, `blocked` is the number of waiting ones and those, and
-- where `remaining` is 0 nobody is inside or waits.
pub Steps-IsCounted : (n : ℕ) (s : System) → n < 2 ^ 31 → Steps (start n) s → IsCounted s
Steps-IsCounted n s few none_yet = record {
  remaining = sym (count-all_outside is_inside n refl);
  blocked = omega (arith, count-all_outside is_waiting n refl);
  served = λ _. (count-all_outside is_inside n refl, count-all_outside is_waiting n refl);
  few = rw (length-all_outside n) few;
  epoch = omega arith;
}
Steps-IsCounted n s few (then_step {m = m} before step) =
    Step-IsCounted m s step (Steps-IsCounted n m few before)
