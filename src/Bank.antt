-- ===== src/Bank.antt =====
-- The transactions of the bank workload (grading/workload.hpp: `WorkloadBank`), each as one atomic
-- run on the shared memory. A `Balance` is an `intptr_t`, here its 64 bits. A segment of accounts
-- stands at its address, with its shared fields; a read through a pointer to none is a fault.
use transactional_memory.Base.{
  ℕ, zero, suc, ◌+◌, ◌*◌, ◌%◌, ◌^◌, Bool, true, false, ◌&&◌, Option, none, some, List, [], ◌∷◌, Run,
  ok, fault, out_of_fuel, ◌>>=◌, ltb, leb, ◌==◌, if◌then◌else◌,
}
use transactional_memory.Words.{add64, sub64}
pub mod Accounts
pub mod Sums
pub mod Transfer
pub mod Search
pub mod Banks
pub mod Walk
pub mod Opened
pub mod Closed
pub mod Ends
pub mod Alloc
pub mod Rounds
pub mod Initial
pub mod Tests

pub record AccountSegment : Type 0 where
  pub count : ℕ
  pub next : ℕ
  pub parity : ℕ
  pub accounts : ℕ → ℕ

abbrev pub Memory : Type 0
Memory = ℕ → Option AccountSegment

unfoldable pub find : Memory → ℕ → Run AccountSegment
find m p = elim (m p) [ none ↦ fault | some s ↦ ok s ]

unfoldable pub put : ℕ → Option AccountSegment → Memory → Memory
put p s m q = if q == p then s else m q

unfoldable pub set_account : ℕ → ℕ → (ℕ → ℕ) → ℕ → ℕ
set_account i v f j = if j == i then v else f j

-- `local < 0`
abbrev pub is_negative : ℕ → Bool
is_negative v = leb (2 ^ 63) v

-- The inner loop of `long_tx`, from account `i` on, for `n` accounts: `none` for `return false`.
unfoldable pub sum_accounts : (accounts : ℕ → ℕ) → (n i sum : ℕ) → Option ℕ
sum_accounts accounts zero i sum = some sum
sum_accounts accounts (suc n) i sum =
    let rest = sum_accounts accounts n (suc i) (add64 sum (accounts i)) in
    if is_negative (accounts i) then none else rest

-- The loop of `long_tx` over the segments: the number of accounts and the sum.
unfoldable pub sum_segments : (fuel : ℕ) → Memory → (start count sum : ℕ) → Run (Option (ℕ × ℕ))
sum_segments zero m start count sum = out_of_fuel
sum_segments (suc fuel) m start count sum =
    if start == 0
    then ok (some (count, sum))
    else (find m start >>= λ s. elim (sum_accounts s.accounts s.count 0 (add64 sum s.parity)) [
      | none ↦ ok none
      | some sum' ↦ sum_segments fuel m s.next (add64 count s.count) sum'
    ])

-- `long_tx`: whether no inconsistency has been found, and the number of accounts.
unfoldable pub long_tx : (fuel init_balance : ℕ) → Memory → (start : ℕ) → Run (Bool × ℕ)
long_tx fuel init_balance m start = do
  r ← sum_segments fuel m start 0 0
  ok (elim r [
    | none ↦ (false, 0)
    | some (count, sum) ↦ (sum == init_balance * count % 2 ^ 64, count)
  ])

-- A pointer to an account: its segment and its index.
abbrev pub Account : Type 0
Account = ℕ × ℕ

-- One of the two searches of `short_tx` in one segment: the pointer, and the index that is left.
unfoldable pub seek : (start count : ℕ) → Option Account → (id : ℕ) → Option Account × ℕ
seek start count (some a) id = (some a, id)
seek start count none id = if ltb id count then (some (start, id), id) else (none, sub64 id count)

-- `break` where both are found, and what follows.
abbrev pub both_or :
    Option Account
    → Option Account
    → Run (Option (Account × Account))
    → Run (Option (Account × Account))
both_or (some a) (some b) rest = ok (some (a, b))
both_or (some a) none rest = rest
both_or none b rest = rest

-- The loop of `short_tx`: both accounts, or `none` for `return false`.
unfoldable pub seek_both :
    (fuel : ℕ)
    → Memory
    → (start : ℕ) → (send recv : Option Account) → (send_id recv_id : ℕ)
    → Run (Option (Account × Account))
seek_both zero m start send recv send_id recv_id = out_of_fuel
seek_both (suc fuel) m start send recv send_id recv_id = find m start >>= λ s.
    (let x = seek start s.count send send_id in
      let y = seek start s.count recv recv_id in
      let rest = seek_both fuel m s.next x.0 y.0 x.1 y.1 in
      both_or x.0 y.0 (if s.next == 0 then ok none else rest))

unfoldable pub read_account : Memory → Account → Run ℕ
read_account m a = find m a.0 >>= λ s. ok (s.accounts a.1)

unfoldable pub write_account : Account → ℕ → Memory → Run Memory
write_account a v m =
    find m a.0 >>= λ s. ok (put a.0 (some (record s { accounts = set_account a.1 v s.accounts })) m)

-- The transfer of `short_tx`: one unit, if the sender has one.
unfoldable pub transfer_unit : (sender recver : Account) → Memory → Run Memory
transfer_unit sender recver m = do
  send_val ← read_account m sender
  if ltb 0 send_val && ltb send_val (2 ^ 63)
      then (do
        m ← write_account sender (sub64 send_val 1) m
        recv_val ← read_account m recver
        write_account recver (add64 recv_val 1) m)
      else ok m

-- `short_tx`: whether both accounts exist, and the memory.
unfoldable pub short_tx : (fuel : ℕ) → Memory → (start send_id recv_id : ℕ) → Run (Bool × Memory)
short_tx fuel m start send_id recv_id = do
  r ← seek_both fuel m start none none send_id recv_id
  elim r [
    | none ↦ ok (false, m)
    | some (sender, recver) ↦ transfer_unit sender recver m >>= λ m'. ok (true, m')
  ]

-- The end of `alloc_tx` that takes an account away from the last segment, at `start`.
unfoldable pub drop_account :
    (init_balance : ℕ) → (prev start : ℕ) → AccountSegment → Memory → Run Memory
drop_account init_balance prev start s m =
    let left = sub64 s.count 1 in
    let new_parity = sub64 (add64 s.parity (s.accounts left)) init_balance in
    if ltb 0 left
    then ok (put start (some (record s { count = left; parity = new_parity })) m)
    else (find m prev >>= λ t. ok (
        put prev (some (record t { next = 0; parity = add64 t.parity new_parity }))
          (put t.next none m)))

-- The end that adds one, in the last segment or in a new one at `fresh`.
unfoldable pub add_account :
    (init_balance nbaccounts fresh : ℕ) → (start : ℕ) → AccountSegment → Memory → Memory
add_account init_balance nbaccounts fresh start s m =
    if ltb s.count nbaccounts
    then put start
        (some (record s {
          accounts = set_account s.count init_balance s.accounts;
          count = s.count + 1;
        }))
        m
    else put start (some (record s { next = fresh })) (
        put fresh
          (some (record {
            count = 1;
            next = 0;
            parity = 0;
            accounts = set_account 0 init_balance (λ _. 0);
          }))
          m)

-- `alloc_tx` at the last segment, `start`, with `count` accounts in all; `fresh` is the address that
-- `tm_alloc` gives.
unfoldable pub at_last :
    (init_balance nbaccounts trigger fresh : ℕ)
    → Memory
    → (prev start count : ℕ) → AccountSegment
    → Run Memory
at_last init_balance nbaccounts trigger fresh m prev start count s =
    if ltb trigger count && ltb 2 count
    then drop_account init_balance prev start s m
    else ok (add_account init_balance nbaccounts fresh start s m)

-- `alloc_tx`, from the segment `start` on.
unfoldable pub alloc_tx :
    (fuel init_balance nbaccounts trigger fresh : ℕ) → Memory → (prev start count : ℕ) → Run Memory
unfolding at_last
alloc_tx zero init_balance nbaccounts trigger fresh m prev start count = out_of_fuel
alloc_tx (suc fuel) init_balance nbaccounts trigger fresh m prev start count = find m start >>= λ s.
    (let count' = add64 count s.count in
      let rest = alloc_tx fuel init_balance nbaccounts trigger fresh m start s.next count' in
      if s.next == 0
      then at_last init_balance nbaccounts trigger fresh m prev start count' s
      else rest)

-- The loop of `init`, from account `i` on, for `n` accounts.
unfoldable pub fill_accounts : (init_balance : ℕ) → (n i : ℕ) → (ℕ → ℕ) → ℕ → ℕ
unfolding set_account
fill_accounts init_balance zero i f = f
fill_accounts init_balance (suc n) i f =
    fill_accounts init_balance n (suc i) (set_account i init_balance f)

-- `init`: whether the first account is read as written, and the memory.
unfoldable pub init : (nbaccounts init_balance : ℕ) → (start : ℕ) → Memory → Run (Bool × Memory)
unfolding find put fill_accounts read_account
init nbaccounts init_balance start m = do
  s ← find m start
  let m' =
      put start
        (some (record s {
          count = nbaccounts;
          accounts = fill_accounts init_balance nbaccounts 0 s.accounts;
        }))
        m
  v ← read_account m' (start, 0)
  ok (v == init_balance, m')

-- What a worker's `run` chooses at random: a long transaction, one that allocates or deallocates, or
-- short ones until one finds its accounts.
pub data Choice : Type 0 where
  control : Choice
  allocation : (trigger fresh : ℕ) → Choice
  transfers : List (ℕ × ℕ) → Choice

-- `while (unlikely(!short_tx(...)))`
unfoldable pub retry_short : (fuel : ℕ) → (start : ℕ) → List (ℕ × ℕ) → Memory → Run (Bool × Memory)
unfolding short_tx
retry_short fuel start [] m = out_of_fuel
retry_short fuel start (p ∷ ps) m =
    short_tx fuel m start p.0 p.1 >>= λ r. if r.0 then ok r else retry_short fuel start ps r.1

-- One round of the loop of `run`: whether it goes on, and the memory.
unfoldable pub run_choice :
    (fuel init_balance nbaccounts : ℕ) → (start : ℕ) → Choice → Memory → Run (Bool × Memory)
unfolding long_tx alloc_tx retry_short
run_choice fuel init_balance nbaccounts start control m =
    long_tx fuel init_balance m start >>= λ r. ok (r.0, m)
run_choice fuel init_balance nbaccounts start (allocation trigger fresh) m =
    alloc_tx fuel init_balance nbaccounts trigger fresh m 0 start 0 >>= λ m'. ok (true, m')
run_choice fuel init_balance nbaccounts start (transfers ps) m = retry_short fuel start ps m

-- `run`, with the long transaction at its end: whether no violation has been found, and the memory.
unfoldable pub run :
    (fuel init_balance nbaccounts : ℕ) → (start : ℕ) → List Choice → Memory → Run (Bool × Memory)
unfolding run_choice
run fuel init_balance nbaccounts start [] m = long_tx fuel init_balance m start >>= λ r. ok (r.0, m)
run fuel init_balance nbaccounts start (c ∷ cs) m =
    run_choice fuel init_balance nbaccounts start c m >>= λ r.
    if r.0 then run fuel init_balance nbaccounts start cs r.1 else ok r
