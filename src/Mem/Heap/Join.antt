-- ===== src/Mem/Heap/Join.antt =====
-- Joining two cells of a contiguous heap.
use ata_driver.Common.{
  ℕ, ◌+◌, ◌^◌, ◌≤◌, ◌<◌, ◌≡◌, ◌≢◌, ◌⊎◌, inl, inr, refl, ◌∙◌, arith, true, false, not, ◌&&◌, List,
  ◌∷◌, ◌==◌, if◌then◌else◌, ==_ne, ==_refl,
}
use ata_driver.Mem.Heap.{Entry, Heap, join}
use ata_driver.Mem.Heap.Seg.{
  Cell, flag_of, behind, link, entry_of, Seg, SameOutside, Seg-le, link-cases,
}
use ata_driver.Mem.Heap.Carve.{Seg-prev, link-first, link-inside}

join-entry :
    (a b : ℕ) (h : Heap) (o p : Entry) (x : ℕ)
    → h.entry a ≡ o
    → h.entry b ≡ p
    → b ≢ a
    → p.next ≢ a
    → o.size + p.size + 1 < 2 ^ 32
    → (join a b h).entry x ≡ (
        if x == a
        then record { next = p.next; prev = o.prev; size = o.size + p.size + 1; flags = o.flags }
        else (if not (p.next == 0) && x == p.next
            then (let y = h.entry x in record y { prev = a })
            else h.entry x))
unfolding join
join-entry a b h o p x at_a at_b ne nn small = ground (arith, at_a, at_b)

pub join-bitmap : (a b : ℕ) (h : Heap) → (join a b h).bitmap ≡ h.bitmap
unfolding join
join-bitmap a b h = ground arith

abbrev pub joined : Cell → Cell → Cell
joined c d = record { size = c.size + d.size + 1; in_use = c.in_use }

module _ (h : Heap) (prev a hi : ℕ) (c d : Cell) (ds : List Cell) (s : Seg h prev a hi (c ∷ d ∷ ds))
    (low : 0 < a) (high : hi < 2 ^ 32) where
  b : ℕ
  b = behind a c

  next : ℕ
  next = link (behind (behind a c) d) ds

  top : behind (behind a c) d ≤ hi
  top = Seg-le h (behind a c) (behind (behind a c) d) hi ds s.1.1

  join_at :
      (x : ℕ)
      → (join a (behind a c) h).entry x ≡ (
          if x == a
          then record {
            next = next;
            prev = prev;
            size = c.size + d.size + 1;
            flags = flag_of c.in_use;
          }
          else (if not (next == 0) && x == next
              then (let o = h.entry x in record o { prev = a })
              else h.entry x))
  unfolding next
  join_at x =
      join-entry a (behind a c) h (entry_of prev c (behind a c))
        (entry_of a d (link (behind (behind a c) d) ds)) x s.0 s.1.0 (λ e. omega arith)
        (elim (link-cases (behind (behind a c) d) ds) [
          | inl none_left ↦ λ e. omega arith
          | inr there ↦ λ e. omega arith
        ])
        (omega (arith, top))

  rest_behind : behind a (joined c d) ≡ behind (behind a c) d
  rest_behind = omega arith

  next-other : (x : ℕ) → x ≢ behind (behind a c) d → (not (next == 0) && x == next) ≡ false
  unfolding next
  next-other x ne = elim (link-cases (behind (behind a c) d) ds) [
    | inl none_left ↦ rw none_left refl
    | inr there ↦
        rw
          (
            there,
            ==_ne x (behind (behind a c) d) ne,
            ==_ne (behind (behind a c) d) 0 (λ e. omega arith),
          )
          refl
  ]

  next-here : behind (behind a c) d < hi → (not (next == 0) && behind (behind a c) d == next) ≡ true
  unfolding next
  next-here q =
      rw
        (
          link-first h (behind a c) (behind (behind a c) d) hi ds s.1.1 q,
          ==_refl (behind (behind a c) d),
          ==_ne (behind (behind a c) d) 0 (λ e. omega arith),
        )
        refl

  tail_kept :
      (x : ℕ) → behind (behind a c) d < x → x < hi → (join a (behind a c) h).entry x ≡ h.entry x
  tail_kept x p q =
      join_at x ∙ rw (==_ne x a (λ e. omega arith), next-other x (λ e. omega arith)) refl

  tail_first :
      behind (behind a c) d < hi
      → (join a (behind a c) h).entry (behind (behind a c) d)
        ≡ (let o = h.entry (behind (behind a c) d) in record o { prev = a })
  tail_first q =
      join_at (behind (behind a c) d)
      ∙ rw (==_ne (behind (behind a c) d) a (λ e. omega arith), next-here q) refl

  pub join-Seg : Seg (join a (behind a c) h) prev a hi (joined c d ∷ ds)
  unfolding next
  join-Seg = (
    join_at a ∙ rw (==_refl a, rest_behind) refl,
    rw rest_behind (
        Seg-prev h (join a (behind a c) h) (behind a c) a (behind (behind a c) d) hi ds s.1.1
          tail_kept tail_first),
  )

  next-outside : (x : ℕ) → (x < a) ⊎ (hi ≤ x) → (not (next == 0) && x == next) ≡ false
  unfolding next
  next-outside x out = elim (link-cases (behind (behind a c) d) ds) [
    | inl none_left ↦ rw none_left refl
    | inr there ↦
        let inside =
          link-inside h (behind a c) (behind (behind a c) d) hi ds s.1.1 (omega arith) there in
        rw
          (
            there,
            ==_ne x (behind (behind a c) d) (λ e. omega (arith, inside)),
            ==_ne (behind (behind a c) d) 0 (λ e. omega arith),
          )
          refl
  ]

  pub join-SameOutside : SameOutside a hi h (join a (behind a c) h)
  join-SameOutside x out =
      join_at x ∙ rw (==_ne x a (λ e. omega (arith, top)), next-outside x out) refl
