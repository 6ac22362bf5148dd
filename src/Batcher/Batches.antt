-- ===== src/Batcher/Batches.antt =====
-- A batch is closed while it runs, and every batch that waits gets its turn (template/batcher.c).
use transactional_memory.Base.{
  ℕ, zero, suc, ◌+◌, ◌-◌, ◌^◌, ◌≤◌, ◌<◌, ◌≡◌, ◌≢◌, refl, sym, ◌∙◌, ap, ◌⊎◌, inl, inr, List, [], ◌∷◌,
  ◌++◌, ℕ_discrete, arith,
}
use transactional_memory.Batcher.{Batcher, count_out, decrement}
use transactional_memory.Batcher.Threads.{
  Status, outside, waiting, inside, is_inside, is_waiting, count, System, left, after_enter, Step,
  enters, leaves, wakes_early, Steps, none_yet, then_step, start, IsCounted, count-append,
  inside-wake_all, waiting-wake_all, enter_batcher_busy, count_out_last, count_out_more,
}
use transactional_memory.Batcher.Epochs.{
  same_threads, counted_down, Step-IsCounted, Steps-IsCounted,
}

abbrev pub insiders : System → ℕ
insiders s = count is_inside s.threads

abbrev pub waiters : System → ℕ
waiters s = count is_waiting s.threads

-- The threads inside and waiting after a step, and the epoch.
module _ (b : Batcher) (xs ys : List Status) (early : ℕ) where
  module _
      (c : IsCounted (record { batcher = b; threads = xs ++ outside ∷ ys; early = early })) where
    abbrev free' : System
    free' = after_enter b xs ys early

    enters-closed :
        count is_inside (xs ++ outside ∷ ys) ≢ 0
        → (insiders free' ≡ count is_inside (xs ++ outside ∷ ys))
          × (free'.batcher.counter ≡ b.counter)
    enters-closed ne =
        let busy : b.remaining ≢ 0 = λ z. ne (c.served z).0 in
        rw (enter_batcher_busy b busy) (
          omega (
            arith,
            count-append is_inside xs (outside ∷ ys),
            count-append is_inside xs (waiting ∷ ys),
          ),
          refl,
        )

  module _
      (c : IsCounted (record { batcher = b; threads = xs ++ inside ∷ ys; early = early })) where
    abbrev left' : System
    left' = left (count_out b) (xs ++ outside ∷ ys) early

    one_less : count is_inside (xs ++ inside ∷ ys) ≡ suc (count is_inside (xs ++ outside ∷ ys))
    one_less =
        omega
          (arith, count-append is_inside xs (outside ∷ ys), count-append is_inside xs (inside ∷ ys))

    same_waiting : count is_waiting (xs ++ outside ∷ ys) ≡ count is_waiting (xs ++ inside ∷ ys)
    same_waiting =
        omega (
          arith,
          count-append is_waiting xs (outside ∷ ys),
          count-append is_waiting xs (inside ∷ ys),
        )

    last_out :
        count is_inside (xs ++ outside ∷ ys) ≡ early
        → (insiders left' ≡ count is_waiting (xs ++ inside ∷ ys) + early)
          × (waiters left' ≡ 0)
          × (left'.early ≡ 0)
          × (left'.batcher.counter ≢ b.counter)
    last_out z =
        let none_left : (decrement b).remaining ≡ 0 =
          omega (arith, counted_down b xs ys early c, z) in
        rw (count_out_last b none_left) (
          omega (arith, z, same_waiting, inside-wake_all (xs ++ outside ∷ ys)),
          waiting-wake_all (xs ++ outside ∷ ys),
          refl,
          λ e. omega (arith, e, c.epoch),
        )

    more_out :
        count is_inside (xs ++ outside ∷ ys) ≢ early
        → (insiders left' ≡ count is_inside (xs ++ outside ∷ ys))
          × (waiters left' ≡ count is_waiting (xs ++ inside ∷ ys))
          × (left'.early ≡ early)
          × (left'.batcher.counter ≡ b.counter)
    more_out ne =
        let some_left : (decrement b).remaining ≢ 0 =
          λ z. ne (omega (arith, counted_down b xs ys early c, z)) in
        rw (count_out_more b some_left) (refl, same_waiting, refl, refl)

-- The three ways in which a step can go on while a batch runs.
abbrev pub Runs : System → System → Type 0
Runs s s' =
    (s'.batcher.counter ≡ s.batcher.counter) × (insiders s' ≤ insiders s) × (s'.early ≡ s.early)

abbrev pub WakesEarly : System → System → Type 0
WakesEarly s s' =
    (s'.batcher ≡ s.batcher)
    × (insiders s' ≡ insiders s + 1)
    × (waiters s ≡ waiters s' + 1)
    × (s'.early ≡ s.early + 1)

abbrev pub Ends : System → System → Type 0
Ends s s' =
    (insiders s ≡ s.early + 1)
    × (insiders s' ≡ waiters s + s.early)
    × (waiters s' ≡ 0)
    × (s'.early ≡ 0)
    × (s'.batcher.counter ≢ s.batcher.counter)

batch_closed :
    (s s' : System)
    → IsCounted s
    → Step s s'
    → insiders s ≢ 0
    → Runs s s' ⊎ (WakesEarly s s' ⊎ Ends s s')
batch_closed s s' c (enters xs ys e e') ne =
    let c' = same_threads s (xs ++ outside ∷ ys) e c in
    let (same, epoch) =
      enters-closed s.batcher xs ys s.early c' (λ z. ne (ap (count is_inside) e ∙ z)) in
    inl (
      ap (λ (t : System). t.batcher.counter) e' ∙ epoch,
      omega (arith, ap insiders e', same, ap (count is_inside) e),
      ap (λ (t : System). t.early) e',
    )
batch_closed s s' c (wakes_early xs ys e e') ne = inr (
    inl (
      ap (λ (t : System). t.batcher) e',
      omega (
        arith,
        ap insiders e',
        ap (count is_inside) e,
        count-append is_inside xs (waiting ∷ ys),
        count-append is_inside xs (inside ∷ ys),
      ),
      omega (
        arith,
        ap waiters e',
        ap (count is_waiting) e,
        count-append is_waiting xs (waiting ∷ ys),
        count-append is_waiting xs (inside ∷ ys),
      ),
      ap (λ (t : System). t.early) e',
    ))
batch_closed s s' c (leaves xs ys e e') ne =
    let c' = same_threads s (xs ++ inside ∷ ys) e c in
    let less = ap (count is_inside) e ∙ one_less s.batcher xs ys s.early c' in
    elim (ℕ_discrete (count is_inside (xs ++ outside ∷ ys)) s.early) [
      | yes z ↦
          let (all_in, none_left, none_early, epoch) = last_out s.batcher xs ys s.early c' z in
          inr (
            inr (
              omega (arith, less, z),
              omega (arith, ap insiders e', all_in, ap (count is_waiting) e),
              ap waiters e' ∙ none_left,
              ap (λ (t : System). t.early) e' ∙ none_early,
              λ q. epoch (sym (ap (λ (t : System). t.batcher.counter) e') ∙ q),
            ))
      | no more ↦
          let (rest, _, same, epoch) = more_out s.batcher xs ys s.early c' more in
          inl (
            ap (λ (t : System). t.batcher.counter) e' ∙ epoch,
            omega (arith, ap insiders e', rest, less),
            ap (λ (t : System). t.early) e' ∙ same,
          )
    ]

-- In every state that fewer than 2 ^ 31 threads reach, spurious wake-ups included, as long as somebody
-- is inside, a step is one of three. It stays in the epoch and lets nobody in. Or it is a spurious
-- wake-up, which lets one waiting thread in and leaves the batcher as it is. Or a thread leaves and
-- ends the epoch: then as many threads are inside as woke up early since the last broadcast, and that
-- one, so just that one where no wake-up was spurious; the epoch counter moves, all who waited come
-- in beside those that woke up early, and nobody waits.
pub Step-Ends :
    (n : ℕ) (s s' : System)
    → n < 2 ^ 31
    → Steps (start n) s
    → Step s s'
    → insiders s ≢ 0
    → Runs s s' ⊎ (WakesEarly s s' ⊎ Ends s s')
Step-Ends n s s' few before step ne = batch_closed s s' (Steps-IsCounted n s few before) step ne

-- Some thread is inside, so there is one to leave.
an_insider :
    (ts : List Status)
    → count is_inside ts ≢ 0
    → (xs : List Status) × (ys : List Status) × (ts ≡ xs ++ inside ∷ ys)
an_insider [] ne = absurd (ne refl)
an_insider (inside ∷ ts) ne = ([], ts, refl)
an_insider (outside ∷ ts) ne =
    let (xs, ys, e) = an_insider ts (λ z. ne (omega (arith, z))) in
    (outside ∷ xs, ys, ap (λ us. outside ∷ us) e)
an_insider (waiting ∷ ts) ne =
    let (xs, ys, e) = an_insider ts (λ z. ne (omega (arith, z))) in
    (waiting ∷ xs, ys, ap (λ us. waiting ∷ us) e)

Steps-prepend : (a b c : System) → Step a b → Steps b c → Steps a c
Steps-prepend a b c first none_yet = then_step none_yet first
Steps-prepend a b c first (then_step {m = m} before last) =
    then_step (Steps-prepend a b m first before) last

-- All who remain leave, one after the other.
Drained : System → Type 0
Drained s = (s' : System) × Steps s s' × (waiters s' ≡ 0) × (insiders s' ≡ waiters s + s.early)

-- One of them leaves.
module _ (s : System) (xs ys : List Status) (e : s.threads ≡ xs ++ inside ∷ ys)
    (c : IsCounted s) where
  abbrev shorter : System
  shorter = left (count_out s.batcher) (xs ++ outside ∷ ys) s.early

  goes : Step s shorter
  goes = leaves xs ys e refl

  fits : IsCounted (record { batcher = s.batcher; threads = xs ++ inside ∷ ys; early = s.early })
  fits = same_threads s (xs ++ inside ∷ ys) e c

  left_inside :
      (k : ℕ) → insiders s ≡ suc k + s.early → count is_inside (xs ++ outside ∷ ys) ≡ k + s.early
  left_inside k h = omega (arith, h, ap (count is_inside) e, one_less s.batcher xs ys s.early fits)

  drain_last : insiders s ≡ 1 + s.early → Drained s
  unfolding Drained
  drain_last h =
      let (all_in, none_left, _, _) =
        last_out s.batcher xs ys s.early fits (omega (arith, left_inside 0 h)) in
      (shorter, then_step none_yet goes, none_left, omega (arith, all_in, ap (count is_waiting) e))

  module _ (k : ℕ) (h : insiders s ≡ suc (suc k) + s.early) where
    more :
        (insiders shorter ≡ suc k + shorter.early)
        × (waiters shorter ≡ waiters s)
        × (shorter.early ≡ s.early)
    more =
        let rest = left_inside (suc k) h in
        let (i, w, same, _) = more_out s.batcher xs ys s.early fits (λ z. omega (arith, rest, z)) in
        (omega (arith, i, rest, same), w ∙ sym (ap (count is_waiting) e), same)

    drain_more : Drained shorter → Drained s
    unfolding Drained
    drain_more (s', steps, none_left, all_in) = (
      s',
      Steps-prepend s shorter s' goes steps,
      none_left,
      omega (arith, all_in, more.1, more.2),
    )

drain : (k : ℕ) (s : System) → IsCounted s → insiders s ≡ suc k + s.early → Drained s
drain zero s c h =
    let (xs, ys, e) = an_insider s.threads (λ z. omega (arith, z, h)) in
    drain_last s xs ys e c (omega (arith, h))
drain (suc k) s c h =
    let (xs, ys, e) = an_insider s.threads (λ z. omega (arith, z, h)) in
    let shorter' = shorter s xs ys e c in
    drain_more s xs ys e c k h
      (drain k shorter' (Step-IsCounted s shorter' (goes s xs ys e c) c) (more s xs ys e c k h).0)

-- From every state that fewer than 2 ^ 31 threads reach, spurious wake-ups included, and where
-- somebody waits, there are steps to a state where nobody waits and as many threads are inside as
-- waited and as had woken up early since the last broadcast.
pub Steps-Drained :
    (n : ℕ) (s : System)
    → n < 2 ^ 31
    → Steps (start n) s
    → waiters s ≢ 0
    → (s' : System) × Steps s s' × (waiters s' ≡ 0) × (insiders s' ≡ waiters s + s.early)
unfolding Drained
Steps-Drained n s few before someone =
    let c = Steps-IsCounted n s few before in
    let busy : s.batcher.remaining ≢ 0 = λ z. someone (c.served z).1 in
    drain (s.batcher.remaining - 1) s c (omega (arith, busy, c.remaining))
