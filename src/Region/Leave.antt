-- ===== src/Region/Leave.antt =====
-- `leave_batcher` (template/batcher.c) on the region.
use transactional_memory.Base.{
  ℕ, ◌+◌, ◌-◌, ◌%◌, ◌^◌, ◌<◌, ◌∙◌, ap, arith, ◌≤◌, ◌≡◌, ◌≢◌, refl, true, false, List, ok, length,
}
use transactional_memory.Batcher.{Batcher, decrement, count_out, next_epoch}
use transactional_memory.Batcher.Threads.{count_out_last, count_out_more}
use transactional_memory.Links.{Ptr}
use transactional_memory.Region.{Region, epoch_cleanup, leave_batcher}
use transactional_memory.Region.Lists.{IsRegion}
use transactional_memory.Region.Cleaned.{Cleaned}
use transactional_memory.Region.Cleanup.{cleanup_order, epoch_cleanup-Cleaned}

module _ (fuel : ℕ) (r : Region) where
  leave_batcher_ends :
      (b : Batcher) (r' : Region)
      → count_out r.batcher ≡ (true, b)
      → epoch_cleanup fuel (record r { batcher = b }) ≡ ok r'
      → leave_batcher fuel r ≡ ok (record r' { batcher = next_epoch r'.batcher })
  unfolding leave_batcher
  leave_batcher_ends b r' e e' = rw (e, e') refl

  leave_batcher_stays :
      (b : Batcher)
      → count_out r.batcher ≡ (false, b)
      → leave_batcher fuel r ≡ ok (record r { batcher = b })
  unfolding leave_batcher
  leave_batcher_stays b e = rw e refl

  -- A transaction that is not the last of its batch leaves the segments as they are.
  pub leave_batcher_more :
      (decrement r.batcher).remaining ≢ 0
      → leave_batcher fuel r ≡ ok (record r { batcher = decrement r.batcher })
  leave_batcher_more ne = leave_batcher_stays (decrement r.batcher) (count_out_more r.batcher ne)

  module _ (cs ds : List Ptr) (v : IsRegion r cs ds) (enough : length ds ≤ fuel) where
    abbrev counted_out : Region
    counted_out = record r {
      batcher = record (decrement r.batcher) { remaining = r.batcher.blocked };
    }

    same_view : IsRegion counted_out cs ds
    same_view = record {
      clean = v.clean;
      dirty = v.dirty;
      apart = v.apart;
      clean_held = v.clean_held;
      dirty_held = v.dirty_held;
    }

    ends_epoch :
        (decrement r.batcher).remaining ≡ 0
        → (r' : Region) × (leave_batcher fuel r
            ≡ ok (record r' { batcher = next_epoch r'.batcher }))
          × Cleaned (cleanup_order ds) cs counted_out r'
    ends_epoch z =
        let (r', e, done) = epoch_cleanup-Cleaned fuel counted_out cs ds same_view enough in
        (r', leave_batcher_ends _ r' (count_out_last r.batcher z) e, done)

    -- In a well-formed region (`IsRegion`) of which some threads remain, fewer than 2 ^ 32, and with
    -- fuel for its dirty segments: leaving never faults. Where one remains, the epoch ends: the dirty
    -- segments are cleaned up (`Cleaned`), as many remain as were blocked, nobody is blocked, and the
    -- epoch counter moves by one, modulo 2 ^ 32. Where more remain, one less does, and nothing else
    -- changes.
    pub leave_batcher_lem :
        0 < r.batcher.remaining
        → r.batcher.remaining < 2 ^ 32
        → (r.batcher.remaining ≡ 1
            → (r' : Region) × (leave_batcher fuel r
                ≡ ok (record r' {
                  batcher = record {
                    counter = (r.batcher.counter + 1) % 2 ^ 32;
                    remaining = r.batcher.blocked;
                    blocked = 0;
                  };
                }))
              × Cleaned (cleanup_order ds) cs counted_out r')
          × (1 < r.batcher.remaining
              → leave_batcher fuel r
                ≡ ok (record r {
                  batcher = record r.batcher { remaining = r.batcher.remaining - 1 };
                }))
    leave_batcher_lem some_remain word = (
      λ one.
          let (r', e, done) = ends_epoch (omega (arith, one)) in
          (r', e ∙ ap (λ b. ok (record r' { batcher = next_epoch b })) done.batcher, done),
      λ more.
          let less : (decrement r.batcher).remaining ≡ r.batcher.remaining - 1 =
            omega (arith, more, word) in
          leave_batcher_more (λ z. omega (arith, z, less, more))
          ∙ ap (λ n. ok (record r { batcher = record r.batcher { remaining = n } })) less,
    )
