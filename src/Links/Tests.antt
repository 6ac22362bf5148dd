-- ===== src/Links/Tests.antt =====
-- Two links in a circle, and one beside them (template/link.c).
use transactional_memory.Base.{
  ◌≡◌, refl, true, false, none, some, List, [], ◌∷◌, ok, ◌==◌, if◌then◌else◌,
}
use transactional_memory.Links.{Ptr, null, Heap, store, _link_insert, link_remove, transfer}
use transactional_memory.Links.Ring.{Ring}
use transactional_memory.Links.Insert.{Inserted, _link_insert-Inserted}
use transactional_memory.Links.Remove.{Removed, link_remove-Removed}
use transactional_memory.Links.Transfer.{Transferred, transfer-Transferred}

abbrev two : List Ptr
two = 10 ∷ 20 ∷ []

abbrev heap : Heap
heap p =
    if p == 10
    then some (record { seg = 1; prev = 20; next = 20 })
    else (if p == 20
        then some (record { seg = 2; prev = 10; next = 10 })
        else (if p == 30 then some (record { seg = 3; prev = null; next = null }) else none))

two-Ring : Ring heap 10 two
two-Ring = record {
  circle = (refl, (refl, refl, (refl, refl)));
  distinct = (refl, (refl, tt));
  links = (refl, (refl, tt));
  not_null = refl;
}

none-Ring : Ring heap null []
none-Ring = record { circle = refl; distinct = tt; links = tt; not_null = refl }

_link_insert-Inserted_example :
    (r : Ptr × Heap) × (_link_insert 10 30 heap ≡ ok r) × Inserted 30 two heap r
_link_insert-Inserted_example = _link_insert-Inserted 10 30 two heap two-Ring refl refl refl

link_remove-Removed_example :
    (r : Ptr × Heap) × (link_remove 10 10 false heap ≡ ok (r.0, 10, r.1))
    × (link_remove 10 10 true heap ≡ ok (r.0, null, store 10 none r.1))
    × Removed 10 two heap r.0 r.1
link_remove-Removed_example = link_remove-Removed 10 10 two heap two-Ring refl

transfer-Transferred_example :
    (r : Ptr × Ptr × Heap) × (transfer 10 null 20 heap ≡ ok r) × Transferred 20 two [] heap r
transfer-Transferred_example =
    transfer-Transferred 20 two [] heap (λ q _. refl) refl 10 null two-Ring none-Ring
