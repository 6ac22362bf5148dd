-- ===== src/Region/Tests.antt =====
-- A region of three segments of 16 bytes: one that nobody has touched in this epoch, and two dirty
-- ones, of which one is written and one is to be freed (template/link.c, template/batcher.c).
use transactional_memory.Base.{
  ◌<◌, ◌≡◌, refl, inl, inr, true, false, none, some, List, [], ◌∷◌, ◌++◌, ok, ◌==◌, if◌then◌else◌,
  Bool-cases, ==_iff, arith,
}
use transactional_memory.Segment.{Segment}
use transactional_memory.Segment.Tests.{sample, half_written}
use transactional_memory.Links.{Ptr, Heap}
use transactional_memory.Links.Ring.{has, seg_of}
use transactional_memory.Links.Remove.{erase}
use transactional_memory.Region.{
  Segs, Region, move_to_dirty, rollback_transaction, epoch_cleanup, leave_batcher,
}
use transactional_memory.Region.Lists.{Held, IsRegion}
use transactional_memory.Region.Move.{Moved, made_dirty, move_to_dirty-Moved}
use transactional_memory.Region.Rollback.{Undone, rollback_transaction-Undone}
use transactional_memory.Region.Cleaned.{Cleaned}
use transactional_memory.Region.Cleanup.{cleanup_order, epoch_cleanup-Cleaned}
use transactional_memory.Region.Leave.{leave_batcher_lem}

abbrev links : Heap
links p =
    if p == 10
    then some (record { seg = 1024; prev = 10; next = 10 })
    else (if p == 20
        then some (record { seg = 2048; prev = 30; next = 30 })
        else (if p == 30 then some (record { seg = 4096; prev = 20; next = 20 }) else none))

abbrev to_free : Segment
to_free = record sample { dirty = true; should_free = true; link = 30 }

abbrev segs : Segs
segs p =
    if p == 1024
    then some sample
    else (if p == 2048
        then some (record half_written { dirty = true; link = 20 })
        else (if p == 4096 then some to_free else none))

abbrev pub region : Region
region = record {
  align = 8;
  batcher = record { counter = 0; remaining = 2; blocked = 1 };
  seg_links = 10;
  dirty_seg_links = 20;
  start = 1024;
  links = links;
  segs = segs;
}

abbrev pub clean : List Ptr
clean = 10 ∷ []

abbrev pub dirty : List Ptr
dirty = 20 ∷ 30 ∷ []

abbrev pub clean_Held : Held links segs false 10
clean_Held = record { seg = sample; found = refl; own_link = refl; flag = refl }

-- What a list holds, one link after the other.
dirty_Held : (x : Ptr) → has x dirty ≡ true → Held links segs true x
dirty_Held x m = elim (Bool-cases (x == 20)) [
  | inl e ↦ rw ((==_iff x 20).0 e) (record {
    seg = record half_written { dirty = true; link = 20 };
    found = refl;
    own_link = refl;
    flag = refl;
  })
  | inr ne ↦
      let z : x ≡ 30 = (==_iff x 30).0 (ground arith) in
      rw z (record { seg = to_free; found = refl; own_link = refl; flag = refl })
]

only_clean : (x : Ptr) → has x clean ≡ true → x ≡ 10
only_clean x m = (==_iff x 10).0 (ground arith)

pub region-IsRegion : IsRegion region clean dirty
region-IsRegion = record {
  clean = record {
    circle = (refl, (refl, refl));
    distinct = (refl, tt);
    links = (refl, tt);
    not_null = refl;
  };
  dirty = record {
    circle = (refl, (refl, refl, (refl, refl)));
    distinct = (refl, (refl, tt));
    links = (refl, (refl, tt));
    not_null = refl;
  };
  apart = λ q m. rw (only_clean q m) refl;
  clean_held = λ x m. rw (only_clean x m) clean_Held;
  dirty_held = dirty_Held;
}

move_to_dirty-Moved_example :
    (r' : Region) × (move_to_dirty (seg_of links 10) region ≡ ok r')
    × Moved
        (seg_of links 10)
        (made_dirty region clean dirty region-IsRegion 10 refl)
        (erase 10 clean)
        (dirty ++ 10 ∷ [])
        region
        r'
move_to_dirty-Moved_example = move_to_dirty-Moved region clean dirty region-IsRegion 10 refl

rollback_transaction-Undone_example :
    (r' : Region) × (rollback_transaction 2 1 region ≡ ok r') × Undone 1 dirty clean dirty region r'
rollback_transaction-Undone_example =
    rollback_transaction-Undone 2 1 region clean dirty region-IsRegion (omega arith)

epoch_cleanup-Cleaned_example :
    (r' : Region) × (epoch_cleanup 2 region ≡ ok r') × Cleaned (cleanup_order dirty) clean region r'
epoch_cleanup-Cleaned_example =
    epoch_cleanup-Cleaned 2 region clean dirty region-IsRegion (omega arith)

abbrev last_inside : Region
last_inside = record region { batcher = record { counter = 0; remaining = 1; blocked = 1 } }

last_inside-IsRegion : IsRegion last_inside clean dirty
last_inside-IsRegion = record {
  clean = region-IsRegion.clean;
  dirty = region-IsRegion.dirty;
  apart = region-IsRegion.apart;
  clean_held = region-IsRegion.clean_held;
  dirty_held = region-IsRegion.dirty_held;
}

leave_batcher_lem_example :
    (last_inside.batcher.remaining ≡ 1
      → (r' : Region) × (leave_batcher 2 last_inside
          ≡ ok (record r' { batcher = record { counter = 1; remaining = 1; blocked = 0 } }))
        × Cleaned (cleanup_order dirty) clean last_inside r')
    × (1 < last_inside.batcher.remaining
        → leave_batcher 2 last_inside
          ≡ ok (record last_inside { batcher = record last_inside.batcher { remaining = 0 } }))
leave_batcher_lem_example =
    leave_batcher_lem 2 last_inside clean dirty last_inside-IsRegion (omega arith) (omega arith)
      (omega arith)
