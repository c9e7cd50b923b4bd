-- ===== src/Minix/Files.antt =====
-- `minix_add_file_block` and `minix_file_block_2_block`, up to the single indirect block.
use mathlib.Core.Path.{subst}
use ata_driver.Common.{
  ℕ, ◌+◌, ◌-◌, ◌*◌, ◌^◌, ◌<◌, ◌≤◌, ◌≡◌, ◌≢◌, refl, sym, ap, ◌∙◌, arith, Bool, true, false, Option,
  none, some, ◌==◌, ltb, ==_ne, ==_refl, if◌then◌else◌, Bool-cases, u8, u16, inl, inr,
}
use ata_driver.Minix.{
  Bytes, Fs, Inode, ◌>>=◌, block_size, load_block, store_block, short_at, set_short, take_zone,
  find_clear, set_bit, put_zone, zone_of, file_block_2_block, blocks_of, indirect, enter,
  add_direct, add_indirect, add_file_block,
}
use ata_driver.Minix.Blocks.{>>=-cases, short_at-set_short, load_block-store_block}

-- Only the map of zones differs.
abbrev SameDisk : Fs → Fs → Type 0
SameDisk fs fs' = (blk : ℕ) → load_block fs' blk ≡ load_block fs blk

abbrev IsTaken : Fs → Option (ℕ × Fs) → Type 0
IsTaken fs none = Unit {0}
IsTaken fs (some r) = (r.0 < 2 ^ 16) × SameDisk fs r.1

if-IsTaken :
    (fs : Fs) (b : Bool) (o : Option (ℕ × Fs)) → IsTaken fs o → IsTaken fs (if b then none else o)
if-IsTaken fs true o t = tt
if-IsTaken fs false o t = t

take_zone-IsTaken : (fs : Fs) → IsTaken fs (take_zone fs)
unfolding take_zone load_block
take_zone-IsTaken fs =
    let k = find_clear fs.nzones 0 fs.zones_map in
    let t : IsTaken fs
        (some (u16 (fs.first_data_zone + k), record fs { zones_map = set_bit k fs.zones_map })) =
      (omega arith, λ blk. refl) in
    if-IsTaken fs (k == fs.nzones) _ t

taken_at : (fs : Fs) (r : ℕ × Fs) → take_zone fs ≡ some r → (r.0 < 2 ^ 16) × SameDisk fs r.1
taken_at fs r e = subst (IsTaken fs) e (take_zone-IsTaken fs)

-- What the new block is, and that the earlier ones stay.
abbrev IsAdded : ℕ → Fs → Inode → Option (ℕ × Inode × Fs) → Type 0
IsAdded fb fs inode none = Unit {0}
IsAdded fb fs inode (some (z, inode', fs')) =
    (zone_of fs' inode' fb ≡ some z)
    × ((b : ℕ) → b < fb → zone_of fs' inode' b ≡ zone_of fs inode b)
    × (inode'.size ≡ inode.size)

direct-zone : (fs : Fs) (inode : Inode) (b : ℕ) → b < 7 → zone_of fs inode b ≡ some (inode.zones b)
unfolding zone_of
direct-zone fs inode b low = let e : ltb b 7 ≡ true = ground (arith, low) in rw e refl

indirect-zone :
    (fs : Fs) (inode : Inode) (b : ℕ) (d : Bytes)
    → 7 ≤ b
    → b < 519
    → load_block fs (inode.zones 7) ≡ some d
    → zone_of fs inode b ≡ some (short_at d (b - 7))
unfolding zone_of
indirect-zone fs inode b d low high e =
    let l : ltb b 7 ≡ false = ground (arith, low) in
    let h : ltb b (7 + 512) ≡ true = ground (arith, high) in rw (l, h, e) refl

add_direct-IsAdded :
    (fb : ℕ) (fs : Fs) (inode : Inode) → fb < 7 → IsAdded fb fs inode (add_direct fb fs inode)
unfolding add_direct
add_direct-IsAdded fb fs inode low = >>=-cases (IsAdded fb fs inode) (take_zone fs) _ tt (λ r e. (
  direct-zone r.1 (put_zone fb r.0 inode) fb low ∙ rw (==_refl fb) refl,
  λ b p.
      direct-zone r.1 (put_zone fb r.0 inode) b (omega arith)
      ∙ rw (==_ne b fb (λ z. omega arith)) (sym (direct-zone fs inode b (omega arith))),
  refl,
))

-- The inode and the file system behind `indirect`.
abbrev IsReady : ℕ → Fs → Inode → Option (Inode × Fs) → Type 0
IsReady fb fs inode none = Unit {0}
IsReady fb fs inode (some p) =
    SameDisk fs p.1
    × ((b : ℕ) → b < 7 → p.0.zones b ≡ inode.zones b)
    × (fb ≢ 7 → p.0.zones 7 ≡ inode.zones 7)
    × (p.0.size ≡ inode.size)

indirect-IsReady :
    (fb : ℕ) (fs : Fs) (inode : Inode) → IsReady fb fs inode (indirect 7 (fb == 7) fs inode)
unfolding indirect
indirect-IsReady fb fs inode = elim (Bool-cases (fb == 7)) [
  | inl first ↦
      let seven : fb ≡ 7 = ground (arith, first) in
      rw first (
        >>=-cases (IsReady fb fs inode) (take_zone fs) _ tt (λ r e. (
          (taken_at fs r e).1,
          λ b p. rw (==_ne b 7 (λ z. omega arith)) refl,
          λ ne. absurd (ne seven),
          refl,
        )))
  | inr later ↦ rw later ((λ blk. refl), (λ b p. refl), (λ ne. refl), refl)
]

short_at-u8 :
    (d d' : Bytes) (j : ℕ)
    → ((i : ℕ) → i < block_size → d' i ≡ u8 (d i))
    → j < 512
    → short_at d' j ≡ short_at d j
short_at-u8 d d' j same p =
    let e = same (2 * j) (omega arith) in
    let e' = same (2 * j + 1) (omega arith) in
    rw (e, e')
      (let a : u8 (u8 (d (2 * j))) ≡ u8 (d (2 * j)) = omega arith in
        let b : u8 (u8 (d (2 * j + 1))) ≡ u8 (d (2 * j + 1)) = omega arith in rw (a, b) refl)

-- The block after `enter`, short by short.
abbrev IsEntered : ℕ → Bytes → ℕ → Option (ℕ × Bytes × Fs) → Type 0
IsEntered blk d i none = Unit {0}
IsEntered blk d i (some (z, bytes, fs')) =
    (d' : Bytes) × (load_block fs' blk ≡ some d')
    × ((j : ℕ) → j < 512 → short_at d' j ≡ (if i == j then z else short_at d j))

enter-IsEntered : (fs : Fs) (blk : ℕ) (d : Bytes) (i : ℕ) → IsEntered blk d i (enter fs blk d i)
unfolding enter
enter-IsEntered fs blk d i = >>=-cases (IsEntered blk d i) (take_zone fs) _ tt (λ r e.
    let bytes = set_short i r.0 d in
    >>=-cases (IsEntered blk d i) (store_block r.1 blk bytes) _ tt (λ fs₂ stored.
      let (d', l, same) = load_block-store_block r.1 fs₂ blk bytes stored in
      (
        d',
        l,
        λ j p. short_at-u8 bytes d' j same p ∙ short_at-set_short d i r.0 j (taken_at fs r e).0,
      )))

module _ (fb : ℕ) (fs : Fs) (inode : Inode) (low : 7 ≤ fb) (high : fb < 519) where
  module _ (p : Inode × Fs) (ready : IsReady fb fs inode (some p)) (d : Bytes)
      (l : load_block p.1 (p.0.zones 7) ≡ some d) where
    earlier :
        (b : ℕ)
        → b < fb
        → (fs₂ : Fs) (d' : Bytes) → load_block fs₂ (p.0.zones 7) ≡ some d'
        → (7 ≤ b → short_at d' (b - 7) ≡ short_at d (b - 7))
        → zone_of fs₂ p.0 b ≡ zone_of fs inode b
    earlier b q fs₂ d' l' same = elim (Bool-cases (ltb b 7)) [
      | inl small ↦
          let s : b < 7 = ground (arith, small) in
          direct-zone fs₂ p.0 b s ∙ ap some (ready.1 b s) ∙ sym (direct-zone fs inode b s)
      | inr large ↦
          let s : 7 ≤ b = ground (arith, large) in
          let before : load_block fs (inode.zones 7) ≡ some d =
            ap (load_block fs) (sym (ready.2 (λ z. omega arith)))
            ∙ sym (ready.0 (p.0.zones 7))
            ∙ l in
          indirect-zone fs₂ p.0 b d' s (omega arith) l'
          ∙ ap some (same s)
          ∙ sym (indirect-zone fs inode b d s (omega arith) before)
    ]

    entered-IsAdded :
        (o : Option (ℕ × Bytes × Fs))
        → IsEntered (p.0.zones 7) d (fb - 7) o
        → IsAdded fb fs inode (o >>= λ r. some (r.0, p.0, r.2))
    entered-IsAdded none entered = tt
    entered-IsAdded (some (z, bytes, fs₂)) (d', l', shorts) = (
      indirect-zone fs₂ p.0 fb d' low high l'
          ∙ ap some (shorts (fb - 7) (omega arith) ∙ rw (==_refl (fb - 7)) refl),
      λ b q.
          earlier b q fs₂ d' l' (λ s.
            shorts (b - 7) (omega arith) ∙ rw (==_ne (fb - 7) (b - 7) (λ e. omega arith)) refl),
      ready.3,
    )

  add_indirect-IsAdded : IsAdded fb fs inode (add_indirect fb fs inode)
  unfolding add_indirect
  add_indirect-IsAdded =
      >>=-cases (IsAdded fb fs inode) (indirect 7 (fb == 7) fs inode) _ tt (λ p e.
        let ready = subst (IsReady fb fs inode) e (indirect-IsReady fb fs inode) in
        >>=-cases (IsAdded fb fs inode) (load_block p.1 (p.0.zones 7)) _ tt (λ d l.
          entered-IsAdded p ready d l (enter p.1 (p.0.zones 7) d (fb - 7))
            (enter-IsEntered p.1 (p.0.zones 7) d (fb - 7))))

add_file_block-IsAdded :
    (fs : Fs) (inode : Inode)
    → blocks_of inode.size < 519
    → IsAdded (blocks_of inode.size) fs inode (add_file_block fs inode)
unfolding add_file_block
add_file_block-IsAdded fs inode high = elim (Bool-cases (ltb (blocks_of inode.size) 7)) [
  | inl small ↦
      rw small (add_direct-IsAdded (blocks_of inode.size) fs inode (ground (arith, small)))
  | inr large ↦
      let in_reach : ltb (blocks_of inode.size) (7 + 512) ≡ true = ground (arith, high) in
      rw (large, in_reach)
        (add_indirect-IsAdded (blocks_of inode.size) fs inode (ground (arith, large)) high)
]

within :
    (fs : Fs) (inode : Inode) (b : ℕ)
    → b * block_size ≤ inode.size
    → file_block_2_block fs inode b ≡ zone_of fs inode b
unfolding file_block_2_block
within fs inode b h =
    let e : ltb inode.size (b * block_size) ≡ false = ground (arith, h) in rw e refl

blocks_of-le : (size b : ℕ) → b < blocks_of size → b * block_size ≤ size
unfolding blocks_of
blocks_of-le size b h = ground (arith, h)

-- For a file of less than 519 blocks to which `minix_add_file_block` adds a block: once the size
-- reaches it, `minix_file_block_2_block` finds the returned zone as the file's next block, and it
-- finds every earlier block where it found it before, also where the indirect block is new.
pub file_block_2_block-add_file_block :
    (fs fs' : Fs) (inode inode' : Inode) (zone size : ℕ)
    → blocks_of inode.size < 519
    → add_file_block fs inode ≡ some (zone, inode', fs')
    → blocks_of inode.size * block_size ≤ size
    → (file_block_2_block fs' (record inode' { size = size }) (blocks_of inode.size) ≡ some zone)
      × ((b : ℕ)
          → b < blocks_of inode.size
          → file_block_2_block fs' (record inode' { size = size }) b
            ≡ file_block_2_block fs inode b)
unfolding zone_of
file_block_2_block-add_file_block fs fs' inode inode' zone size high e enough =
    let fb = blocks_of inode.size in
    let added = subst (IsAdded fb fs inode) e (add_file_block-IsAdded fs inode high) in
    let inode₂ : Inode = record inode' { size = size } in
    (
      within fs' inode₂ fb enough ∙ added.0,
      λ b p.
          within fs' inode₂ b (omega (arith, p, enough))
          ∙ added.1 b p
          ∙ sym (within fs inode b (blocks_of-le inode.size b p)),
    )
