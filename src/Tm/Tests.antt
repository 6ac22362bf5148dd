-- ===== src/Tm/Tests.antt =====
-- Calls of the library on concrete regions (template/tm.c).
use transactional_memory.Base.{
  ℕ, ◌+◌, ◌*◌, ◌^◌, ◌≤◌, ◌%◌, ◌≡◌, refl, sym, ap, ◌∙◌, inl, inr, Bool-cases, leb, leb→le, true,
  false, Option, none, some, [], ◌∷◌, ◌++◌, ok, fault, Ensures, ◌==◌, if◌then◌else◌, arith,
}
use transactional_memory.Word.{untouched, can_write_word, cas_access, claim_word}
use transactional_memory.Opaque.{get_opaque_ptr_word, get_opaque_ptr_seg, get_opaque_ptr_seg_word}
use transactional_memory.Segment.{Segment, memcpy, set_control, write_word, write_words, _tm_write}
use transactional_memory.Segment.Tests.{sample, sample-IsRange, source}
use transactional_memory.Segment.Alloc.{seg_size, fst_aligned_offset}
use transactional_memory.Segment.Alloc.Allocate.{IsMemalign}
use transactional_memory.Batcher.{decrement}
use transactional_memory.Links.Remove.{erase}
use native.Mathlib.Nat.{mul-mod_left}
use transactional_memory.Words.{pow2_exp, clzl, bit_length}
use transactional_memory.Region.{Region, store_seg}
use transactional_memory.Region.Lists.{IsRegion, IsRegion-store, Held}
use transactional_memory.Segment.Transfer.{IsRange}
use transactional_memory.Region.Tests.{region, region-IsRegion, clean, dirty, clean_Held}
use transactional_memory.Region.Rollback.{Undone}
use transactional_memory.Tm.{tm_write, tm_alloc, tm_create}
use transactional_memory.Tm.Access.{
  Locates, Wrote, tm_write-clean, tm_write-refused, tm_write-refused_clean,
}
use transactional_memory.Tm.Create.{Created, tm_create-Created}
use transactional_memory.Region.Insert.{IsFresh}
use transactional_memory.Tm.Memory.{AllocDone, tm_alloc-AllocDone}

-- The opaque pointer of the clean segment.
abbrev ptr : ℕ
ptr = 0x8000000000490

located : Locates ptr 1024 sample (0 * 8)
unfolding get_opaque_ptr_word get_opaque_ptr_seg get_opaque_ptr_seg_word
located = record { at_seg = refl; at_offset = refl }

abbrev written : Segment
unfolding set_control memcpy
written = record sample {
  control =
      set_control 0 (record { access = 5; written = true; many_accesses = false }) (λ _. untouched);
  write = memcpy (λ _. 0) 0 source 0 8;
}

granted : _tm_write 8 5 source (1 * 8) sample (0 * 8) ≡ ok (true, written)
unfolding _tm_write write_words write_word can_write_word cas_access claim_word written
granted = refl

tm_write-clean_example :
    (r' : Region) × (tm_write 2 5 source (1 * 8) ptr region ≡ ok (true, r'))
    × Wrote 2 5 0 1 ptr source region clean dirty region-IsRegion false 10 clean_Held sample-IsRange
        located written
        (erase 10 clean)
        (dirty ++ 10 ∷ [])
        r'
tm_write-clean_example =
    tm_write-clean 2 5 0 1 ptr source region clean dirty region-IsRegion false 10 clean_Held
      sample-IsRange located written granted refl

-- The same segment, where transaction 9 has written the second word.
abbrev clash : Segment
clash = record sample {
  control = λ i.
      if i == 1 then record { access = 9; written = true; many_accesses = false } else untouched;
}

abbrev crowded : Region
crowded = record region { segs = store_seg 1024 (some clash) region.segs }

crowded-IsRegion : IsRegion crowded clean dirty
crowded-IsRegion =
    IsRegion-store region clean dirty false 10 clash region-IsRegion clean_Held refl refl

abbrev clash_Held : Held crowded.links crowded.segs false 10
unfolding store_seg
clash_Held = record { seg = clash; found = refl; own_link = refl; flag = refl }

clash-IsRange : IsRange 8 0 2 clash
clash-IsRange = record { aligned = omega arith; bounded = omega arith; inside = omega arith }

located_clash : Locates ptr 1024 clash (0 * 8)
unfolding get_opaque_ptr_word get_opaque_ptr_seg get_opaque_ptr_seg_word
located_clash = record { at_seg = refl; at_offset = refl }

-- The first word has been written when the second one is refused.
abbrev half : Segment
unfolding set_control memcpy
half = record clash {
  control =
      set_control 1 (record { access = 9; written = true; many_accesses = false })
        (set_control 0 (record { access = 5; written = true; many_accesses = false })
          clash.control);
  write = memcpy (λ _. 0) 0 source 0 8;
}

refused : _tm_write 8 5 source (2 * 8) clash (0 * 8) ≡ ok (false, half)
unfolding _tm_write write_words write_word can_write_word cas_access claim_word half
refused = refl

tm_write-refused_example :
    (r1 : Region) × (tm_write 2 5 source (2 * 8) ptr crowded
      ≡ ok (false, record r1 { batcher = decrement crowded.batcher }))
    × Undone 5 dirty clean dirty
        (record crowded { segs = store_seg 1024 (some half) crowded.segs })
        r1
unfolding clash_Held
tm_write-refused_example =
    tm_write-refused 2 5 0 2 ptr source crowded clean dirty crowded-IsRegion false 10 clash_Held
      clash-IsRange located_clash half refused (omega arith) (λ e. cc)

tm_write-refused_clean_example :
    (r' : Region) × (tm_write 2 5 source (2 * 8) ptr crowded ≡ ok (false, r'))
    × (r'.segs 1024 ≡ some half)
unfolding clash_Held
tm_write-refused_clean_example =
    tm_write-refused_clean 2 5 0 2 ptr source crowded clean dirty crowded-IsRegion false 10
      clash_Held clash-IsRange located_clash half refused refl (omega arith) (λ e. cc)

-- An allocator that documents what `posix_memalign` does: it gives the block at 32 times the
-- alignment.
abbrev memalign : ℕ → ℕ → Option ℕ
memalign a s = if leb (32 * a + s) (2 ^ 48) then some (32 * a) else none

memalign-IsMemalign : IsMemalign memalign
memalign-IsMemalign = record { aligned = multiple; user = fits }
  where
    given : (a s p : ℕ) → leb (32 * a + s) (2 ^ 48) ≡ true → memalign a s ≡ some p → 32 * a ≡ p
    given a s p yes' e = cc (rw yes' at e)

    multiple : (a s p : ℕ) → memalign a s ≡ some p → p % a ≡ 0
    multiple a s p e = elim (Bool-cases (leb (32 * a + s) (2 ^ 48))) [
      | inl yes' ↦ ap (λ q. q % a) (sym (given a s p yes' e)) ∙ mul-mod_left 32 a
      | inr no' ↦ cc (rw no' at e)
    ]

    fits : (a s p : ℕ) → memalign a s ≡ some p → p + s ≤ 2 ^ 48
    fits a s p e = elim (Bool-cases (leb (32 * a + s) (2 ^ 48))) [
      | inl yes' ↦ omega (arith, given a s p yes' e, leb→le (32 * a + s) (2 ^ 48) yes')
      | inr no' ↦ cc (rw no' at e)
    ]

small : seg_size 8 16 ≤ 2 ^ 30
unfolding fst_aligned_offset
small = omega arith

tm_create-Created_example :
    ((region batcher : ℕ)
      → Ensures
          (Created memalign 10 16 8)
          (tm_create memalign (some region) (some batcher) 10 16 8))
    × ((batcher : Option ℕ) → tm_create memalign none batcher 10 16 8 ≡ fault)
    × ((region : Option ℕ) → tm_create memalign region none 10 16 8 ≡ fault)
tm_create-Created_example =
    tm_create-Created memalign 10 16 8 memalign-IsMemalign refl (omega arith) small

new :
    (p : ℕ)
    → memalign (2 ^ pow2_exp (seg_size 8 16)) (2 ^ pow2_exp (seg_size 8 16)) ≡ some p
    → IsFresh region.links region.segs 40 p dirty clean
unfolding fst_aligned_offset pow2_exp clzl bit_length
new p e =
    let at : 8192 ≡ p = cc e in
    record { real = refl; not_clean = refl; not_dirty = refl; unused = ap region.segs (sym at) }

tm_alloc-AllocDone_example :
    Ensures (AllocDone memalign 5 16 40 region clean dirty) (tm_alloc memalign 40 5 16 region)
tm_alloc-AllocDone_example =
    tm_alloc-AllocDone memalign 40 5 16 region clean dirty region-IsRegion memalign-IsMemalign
      (omega arith) small new
