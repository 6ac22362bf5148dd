-- ===== src/Tm/Access.antt =====
-- `tm_write` (template/tm.c) on a region: the way from the opaque pointer to the segment, and what
-- becomes of the lists when the access is granted and when it is refused.
use mathlib.Core.Path.{subst}
use transactional_memory.Base.{
  ℕ, ◌*◌, ◌≤◌, ◌≡◌, ◌≢◌, refl, sym, ◌∙◌, ap, inl, inr, Bool, true, false, some, List, [], ◌∷◌, ◌++◌,
  ok, Ensures, ◌==◌, length, Bool-cases, ==_iff,
}
use transactional_memory.Opaque.{
  get_opaque_ptr_word, get_opaque_ptr_seg_word, get_opaque_ptr_seg, get_word_seg_offset,
}
use transactional_memory.Segment.{Bytes, Segment, is_foreign, _tm_write}
use transactional_memory.Segment.WriteLoop.{WriteLoop}
use transactional_memory.Segment.Transfer.{IsRange, _tm_write-WriteLoop}
use transactional_memory.Links.{Ptr}
use transactional_memory.Links.Ring.{seg_of, has}
use transactional_memory.Links.Remove.{erase}
use transactional_memory.Batcher.{decrement}
use transactional_memory.Region.{
  Segs, store_seg, Region, move_to_dirty, rollback_transaction, leave_batcher,
}
use transactional_memory.Region.Lists.{
  Held, IsRegion, IsRegion-store, load_seg-some, store_seg-same, store_seg-other, some-injective,
  Held-injective,
}
use transactional_memory.Region.Move.{Moved, move_to_dirty-Moved}
use transactional_memory.Region.Rollback.{Undone, rollback_transaction-Undone}
use transactional_memory.Region.Leave.{leave_batcher_more}
use transactional_memory.Tm.{find_seg, abort, write_seg, tm_write}

-- The opaque pointer leads to the segment at `p`, and to byte `off` of it.
pub record Locates (ptr p : ℕ) (seg : Segment) (off : ℕ) : Type 0 where
  pub at_seg : get_opaque_ptr_seg ptr ≡ some p
  pub at_offset : get_word_seg_offset (get_opaque_ptr_word ptr) seg.read_at ≡ off

find_seg-ok : (ptr p : ℕ) → get_opaque_ptr_seg ptr ≡ some p → find_seg ptr ≡ ok p
unfolding find_seg get_opaque_ptr_seg
find_seg-ok ptr p e =
    let e' : get_opaque_ptr_seg_word ptr (get_opaque_ptr_word ptr) ≡ some p = e in
    rw (find_seg, e') refl

module _ (fuel tx size ptr p off : ℕ) (source : Bytes) (r : Region) (seg : Segment)
    (found : r.segs p ≡ some seg) (to : Locates ptr p seg off) where
  tm_write-write_seg :
      tm_write fuel tx source size ptr r ≡ write_seg fuel tx source size p seg off r
  unfolding tm_write
  tm_write-write_seg =
      rw (find_seg-ok ptr p to.at_seg, load_seg-some p r.segs seg found)
        (ap (λ o. write_seg fuel tx source size p seg o r) to.at_offset)

  module _ (seg' : Segment) where
    abbrev pub written : Region
    written = record r { segs = store_seg p (some seg') r.segs }

    granted_moves :
        (r' : Region)
        → _tm_write r.align tx source size seg off ≡ ok (true, seg')
        → move_to_dirty p written ≡ ok r'
        → write_seg fuel tx source size p seg off r ≡ ok (true, r')
    unfolding write_seg
    granted_moves r' e m = rw (e, m) refl

    refused_aborts :
        (r' : Region)
        → _tm_write r.align tx source size seg off ≡ ok (false, seg')
        → abort fuel tx written ≡ ok r'
        → write_seg fuel tx source size p seg off r ≡ ok (false, r')
    unfolding write_seg
    refused_aborts r' e m = rw (e, m) refl

abort_ends :
    (fuel tx : ℕ) (r r1 r2 : Region)
    → rollback_transaction fuel tx r ≡ ok r1
    → leave_batcher fuel r1 ≡ ok r2
    → abort fuel tx r ≡ ok r2
unfolding abort
abort_ends fuel tx r r1 r2 e e' = rw (e, e') refl

_tm_write-foreign :
    (align tx size off : ℕ) (source : Bytes) (seg : Segment)
    → is_foreign tx seg ≡ true
    → _tm_write align tx source size seg off ≡ ok (false, seg)
unfolding _tm_write
_tm_write-foreign align tx size off source seg far = rw far refl

-- `n` words from word `w` on, of the segment of link `x`, in the list that `a` tells.
module _ (fuel tx w n ptr : ℕ) (source : Bytes) (r : Region) (cs ds : List Ptr)
    (v : IsRegion r cs ds) (a : Bool) (x : Ptr) (held : Held r.links r.segs a x)
    (range : IsRange r.align w n held.seg)
    (to : Locates ptr (seg_of r.links x) held.seg (w * r.align)) where
  module _ (yes' : Bool) (seg' : Segment)
      (answer : _tm_write r.align tx source (n * r.align) held.seg (w * r.align)
        ≡ ok (yes', seg')) where
    abbrev Framed : Bool × Segment → Type 0
    Framed r' = r'.1 ≡ record held.seg { control = r'.1.control; write = r'.1.write }

    -- Only controls and bytes change, in a new segment of another transaction none.
    frame : Framed (yes', seg')
    frame = elim (Bool-cases (is_foreign tx held.seg)) [
      | inl far ↦
          let kept : Ensures Framed
              (_tm_write r.align tx source (n * r.align) held.seg (w * r.align)) =
            subst (Ensures Framed)
              (sym (_tm_write-foreign r.align tx (n * r.align) (w * r.align) source held.seg far))
              refl in
          subst (Ensures Framed) answer kept
      | inr near ↦
          let loop : WriteLoop r.align tx source 0 w n held.seg (yes', seg') =
            subst (Ensures (WriteLoop r.align tx source 0 w n held.seg)) answer
              (_tm_write-WriteLoop r.align tx w n held.seg range source near) in
          loop.frame
    ]

    abbrev pub rewritten : Region
    rewritten = record r { segs = store_seg (seg_of r.links x) (some seg') r.segs }

    rewritten-IsRegion : IsRegion rewritten cs ds
    rewritten-IsRegion =
        IsRegion-store r cs ds a x seg' v held (ap (λ (t : Segment). t.link) frame ∙ held.own_link)
          (ap (λ (t : Segment). t.dirty) frame ∙ held.flag)

  module _ (seg' : Segment) where
    -- What the call leaves of the segments: that one is as the loop left it, and dirty.
    pub record Wrote (cs' ds' : List Ptr) (r' : Region) : Type 0 where
      pub view : IsRegion r' cs' ds'
      pub here : r'.segs (seg_of r.links x) ≡ some (record seg' { dirty = true })
      pub others : (q : Ptr) → (q == seg_of r.links x) ≡ false → r'.segs q ≡ r.segs q
      pub batcher : r'.batcher ≡ r.batcher

    module _
        (answer : _tm_write r.align tx source (n * r.align) held.seg (w * r.align)
          ≡ ok (true, seg')) where
      abbrev rw_view : IsRegion (rewritten true seg' answer) cs ds
      rw_view = rewritten-IsRegion true seg' answer

      granted-Wrote :
          (r' : Region) (cs' ds' : List Ptr) (s : Segment)
          → s ≡ record seg' { dirty = true }
          → Moved (seg_of r.links x) s cs' ds' (rewritten true seg' answer) r'
          → Wrote cs' ds' r'
      granted-Wrote r' cs' ds' s e moved = record {
        view = moved.view;
        here =
            ap (λ (m : Segs). m (seg_of r.links x)) moved.segs
            ∙ store_seg-same (seg_of r.links x) (some s) (rewritten true seg' answer).segs
            ∙ ap some e;
        others = λ q ne.
            ap (λ (m : Segs). m q) moved.segs
            ∙ store_seg-other (seg_of r.links x) q (some s) (rewritten true seg' answer).segs ne
            ∙ store_seg-other (seg_of r.links x) q (some seg') r.segs ne;
        batcher = moved.same.batcher;
      }

      -- In a well-formed region (`IsRegion`), a write of whole words inside a segment of fewer than
      -- 2 ^ 64 bytes, through an opaque pointer that leads to them, that the segment grants and that is
      -- clean: the call returns true, and the segment, as the loop left it, is the last of the dirty
      -- list.
      pub tm_write-clean :
          has x cs ≡ true
          → (r' : Region) × (tm_write fuel tx source (n * r.align) ptr r ≡ ok (true, r'))
            × Wrote (erase x cs) (ds ++ x ∷ []) r'
      tm_write-clean mem =
          let (r', e, moved) =
            move_to_dirty-Moved (rewritten true seg' answer) cs ds rw_view x mem in
          let same : (rw_view.clean_held x mem).seg ≡ seg' = some-injective _ _ (
            sym (rw_view.clean_held x mem).found
            ∙ store_seg-same (seg_of r.links x) (some seg') r.segs) in
          (
            r',
            tm_write-write_seg fuel tx (n * r.align) ptr (seg_of r.links x) (w * r.align) source r
                  held.seg held.found to
                ∙ granted_moves fuel tx (n * r.align) ptr (seg_of r.links x) (w * r.align) source r
                    held.seg held.found to seg' r' answer e,
            granted-Wrote r' (erase x cs) (ds ++ x ∷ []) _
                (ap (λ (t : Segment). record t { dirty = true }) same) moved,
          )

    module _
        (answer : _tm_write r.align tx source (n * r.align) held.seg (w * r.align)
          ≡ ok (false, seg')) where
      abbrev pub at_fault : Region
      at_fault = rewritten false seg' answer

      -- In a well-formed region (`IsRegion`), with fuel for its dirty segments, a write of whole words
      -- inside a segment of fewer than 2 ^ 64 bytes, through an opaque pointer that leads to them, that
      -- the segment refuses, because of one of its words or as the new segment of another transaction,
      -- where the transaction is not the last of its batch: the call returns false, every dirty
      -- segment is rolled back, and the transaction has left the batch. No other segment changes
      -- after the loop of the write.
      pub tm_write-refused :
          length ds ≤ fuel
          → (decrement r.batcher).remaining ≢ 0
          → (r1 : Region) × (tm_write fuel tx source (n * r.align) ptr r
              ≡ ok (false, record r1 { batcher = decrement r.batcher }))
            × Undone tx ds cs ds at_fault r1
      tm_write-refused enough many =
          let (r1, e, done) =
            rollback_transaction-Undone fuel tx at_fault cs ds
              (rewritten-IsRegion false seg' answer) enough in
          let same : r1.batcher ≡ r.batcher = ap (λ (t : Region). t.batcher) done.frame in
          let leaves =
            leave_batcher_more fuel r1
              (λ z. many (ap (λ b. (decrement b).remaining) (sym same) ∙ z))
            ∙ ap (λ b. ok (record r1 { batcher = decrement b })) same in
          (
            r1,
            tm_write-write_seg fuel tx (n * r.align) ptr (seg_of r.links x) (w * r.align) source r
                  held.seg held.found to
                ∙ refused_aborts fuel tx (n * r.align) ptr (seg_of r.links x) (w * r.align) source r
                    held.seg held.found to seg' _ answer
                    (abort_ends fuel tx at_fault r1 _ e leaves),
            done,
          )

      -- In a well-formed region (`IsRegion`), with fuel for its dirty segments, when a clean segment of
      -- fewer than 2 ^ 64 bytes refuses a write of whole words inside it, through an opaque pointer that
      -- leads to them, of a transaction that is not the last of its batch, what was written before the
      -- refusal stays: rolling back takes the dirty segments only.
      pub tm_write-refused_clean :
          has x cs ≡ true
          → length ds ≤ fuel
          → (decrement r.batcher).remaining ≢ 0
          → (r' : Region) × (tm_write fuel tx source (n * r.align) ptr r ≡ ok (false, r'))
            × (r'.segs (seg_of r.links x) ≡ some seg')
      tm_write-refused_clean mem enough many =
          let (r1, e, done) = tm_write-refused enough many in
          let w' = rewritten-IsRegion false seg' answer in
          (
            record r1 { batcher = decrement r.batcher },
            e,
            done.others (seg_of r.links x) (apart_segs w' mem)
                ∙ store_seg-same (seg_of r.links x) (some seg') r.segs,
          )
        where
          apart_segs :
              IsRegion at_fault cs ds
              → has x cs ≡ true
              → (y : Ptr) → has y ds ≡ true
              → (seg_of r.links x == seg_of r.links y) ≡ false
          apart_segs w' mem y m = elim (Bool-cases (seg_of r.links x == seg_of r.links y)) [
            | inl same ↦
                let z =
                  Held-injective at_fault.links at_fault.segs false true x y (w'.clean_held x mem)
                    (w'.dirty_held y m) ((==_iff (seg_of r.links x) (seg_of r.links y)).0 same) in
                cc (w'.apart x mem, ap (λ t. has t ds) z, m)
            | inr ne ↦ ne
          ]
