-- ===== src/Mem/Heap/Place.antt =====
-- The frames that `kalloc` of src/kernel/drivers/mem.c gets for a heap that holds an area.
use ata_driver.Common.{
  ℕ, ◌+◌, ◌-◌, ◌^◌, ◌≤◌, ◌<◌, ◌≡◌, ◌⊎◌, inl, inr, refl, sym, ◌∙◌, arith, true, false, ◌&&◌, leb,
  ltb, Bool-cases,
}
use ata_driver.Mem.Bitmap.{entry_used, get_entry}
use ata_driver.Mem.Frames.{clamp_last}
use ata_driver.Mem.Frames.Allocate.{IsFirstFit, IsRefused}
use ata_driver.Mem.Heap.{Heap, kernel_first_frame, user_first_frame, frames_of}
use ata_driver.Mem.Heap.Grant.{fresh_frames}
use ata_driver.Mem.Heap.Grow.{growth-bounds}
use ata_driver.Mem.Heap.Spec.{IsBelow}

-- The frame allocator serves such a heap at `top`, if it has enough frames up to `limit`.
module _ (total limit top units : ℕ) (h : Heap) (b : IsBelow total limit top h.bitmap)
    (small : units ≤ 2 ^ 27) (machine : total ≤ 2 ^ 20) where
  pub some_frames : 0 < frames_of units
  some_frames = omega (arith, growth-bounds units small)

  abbrev Fit : Type 0
  Fit =
      IsFirstFit h.bitmap (frames_of units) kernel_first_frame (clamp_last total user_first_frame)
        (fresh_frames total units h)

  first_fit-above : (v : Fit) → top ≤ v.start
  first_fit-above v = elim (Bool-cases (leb top v.start)) [
    | inl up ↦ ground (arith, up)
    | inr low ↦ absurd (
        b.taken v.start v.above (ground (arith, low))
          (v.was_free v.start (omega arith) (omega (arith, some_frames))))
  ]

  pub first_fit-inside : (v : Fit) → v.start + frames_of units ≤ limit
  first_fit-inside v = elim (Bool-cases (leb (v.start + frames_of units) limit)) [
    | inl up ↦ ground (arith, up)
    | inr low ↦
        let out : limit < v.start + frames_of units = ground (arith, low) in
        let g = v.start + frames_of units - 1 in
        absurd (
          b.kept g (omega (arith, out)) (omega (arith, v.below, some_frames))
            (v.was_free g (omega (arith, some_frames)) (omega (arith, some_frames))))
  ]

  pub first_fit-top : (v : Fit) → v.start ≡ top
  first_fit-top v = elim (Bool-cases (leb v.start top)) [
    | inl low ↦ let le : v.start ≤ top = ground (arith, low) in omega (arith, le, first_fit-above v)
    | inr up ↦ absurd (
        v.lowest top b.first (ground (arith, up))
          (λ g p q. b.free g p (omega (arith, first_fit-above v, first_fit-inside v))))
  ]

  pub refused-full :
      IsRefused h.bitmap
        (frames_of units)
        kernel_first_frame
        (clamp_last total user_first_frame)
        (fresh_frames total units h)
      → limit < top + frames_of units
  refused-full v = elim (Bool-cases (leb (top + frames_of units) limit)) [
    | inl fit ↦
        let le : top + frames_of units ≤ limit = ground (arith, fit) in
        absurd (
          v.none_free top b.first (omega (arith, le, b.inside))
            (λ g p q. b.free g p (omega (arith, le))))
    | inr over ↦ ground (arith, over)
  ]

  marked-other :
      (v : Fit) (g : ℕ)
      → (g < top) ⊎ (top + frames_of units ≤ g)
      → get_entry (fresh_frames total units h).1 g ≡ get_entry h.bitmap g
  marked-other v g out =
      let m = v.marked g in
      let e : (leb v.start g && ltb g (v.start + frames_of units)) ≡ false =
        rw (first_fit-top v) (elim out [ inl low ↦ ground arith | inr up ↦ ground arith ]) in
      m ∙ rw e refl

  marked-here :
      (v : Fit) (g : ℕ)
      → top ≤ g
      → g < top + frames_of units
      → get_entry (fresh_frames total units h).1 g ≡ entry_used
  marked-here v g p q =
      let m = v.marked g in
      let e : (leb v.start g && ltb g (v.start + frames_of units)) ≡ true =
        rw (first_fit-top v) (ground arith) in
      m ∙ rw e refl

  pub marked-IsBelow :
      (v : Fit) → IsBelow total limit (top + frames_of units) (fresh_frames total units h).1
  marked-IsBelow v = record {
    first = omega (arith, b.first);
    below = omega (arith, first_fit-inside v, first_fit-top v);
    inside = b.inside;
    taken = λ g p q z. elim (Bool-cases (leb top g)) [
      | inl up ↦ omega (arith, z, marked-here v g (ground (arith, up)) q)
      | inr low ↦
          let lt : g < top = ground (arith, low) in
          b.taken g p lt (sym (marked-other v g (inl lt)) ∙ z)
    ];
    free = λ g p q. marked-other v g (inr p) ∙ b.free g (omega arith) q;
    kept = λ g p q z.
        b.kept g p q
          (sym (marked-other v g (inr (omega (arith, first_fit-inside v, first_fit-top v)))) ∙ z);
  }
