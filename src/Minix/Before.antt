-- ===== src/Minix/Before.antt =====
-- What the functions on blocks, zones and inodes leave alone: all that lies before the partition.
use ata_driver.Common.{
  ◌^◌, ℕ, ◌≤◌, ◌<◌, ◌≡◌, ◌∙◌, refl, arith, Bool, true, false, Option, none, some, if◌then◌else◌,
}
use ata_driver.Minix.{
  Bytes, Fs, Inode, ◌>>=◌, put_block, store_block, take_zone, indirect, enter, add_direct,
  add_indirect, inner, add_double, add_file_block, save_inode, set_short,
}

-- The image does not get shorter, and the bytes before the partition stay.
pub record IsKept (fs fs' : Fs) : Type 0 where
  pub ps : fs'.ps ≡ fs.ps
  pub maps : fs'.imap_blocks ≡ fs.imap_blocks
  pub start : fs.ps < 2 ^ 31
  pub size : fs.disk.size ≤ fs'.disk.size
  pub before : (y : ℕ) → y < fs.ps → y < fs.disk.size → fs'.disk.byte y ≡ fs.disk.byte y

pub IsKept-same :
    {fs fs' : Fs}
    → fs.ps < 2 ^ 31
    → fs'.ps ≡ fs.ps
    → fs'.imap_blocks ≡ fs.imap_blocks
    → fs'.disk ≡ fs.disk
    → IsKept fs fs'
IsKept-same l p m d = record {
  ps = p;
  maps = m;
  start = l;
  size = rw d (omega arith);
  before = λ y l q. rw d refl;
}

pub IsKept-trans : {fs fs₁ fs₂ : Fs} → IsKept fs fs₁ → IsKept fs₁ fs₂ → IsKept fs fs₂
IsKept-trans v w = record {
  ps = w.ps ∙ v.ps;
  maps = w.maps ∙ v.maps;
  start = v.start;
  size = omega (arith, v.size, w.size);
  before = λ y l q. w.before y (omega (arith, l, v.ps)) (omega (arith, q, v.size)) ∙ v.before y l q;
}

-- The next state differs in neither.
pub IsKept-next :
    {fs fs₁ fs₂ : Fs}
    → IsKept fs fs₁
    → fs₂.ps ≡ fs₁.ps
    → fs₂.imap_blocks ≡ fs₁.imap_blocks
    → fs₂.disk ≡ fs₁.disk
    → IsKept fs fs₂
IsKept-next v p m d = IsKept-trans v (IsKept-same (omega (arith, v.start, v.ps)) p m d)

-- Where there is a result, it is as `P` says.
pub data Each {A : Type 0} (P : A → Type 0) : Option A → Type 0 where
  failed : Each P none
  gives : {a : A} → P a → Each P (some a)

pub Each-bind :
    {A B : Type 0} (P : A → Type 0) (Q : B → Type 0) {r : Option A} {k : A → Option B}
    → Each P r
    → ((a : A) → P a → Each Q (k a))
    → Each Q (r >>= k)
Each-bind P Q failed next = failed
Each-bind P Q (gives {a} p) next = next a p

pub Each-map :
    {A : Type 0} {P Q : A → Type 0} {r : Option A} → Each P r → ((a : A) → P a → Q a) → Each Q r
Each-map failed next = failed
Each-map (gives {a} p) next = gives (next a p)

pub Each-any :
    {A B : Type 0} (Q : B → Type 0) (r : Option A) {k : A → Option B}
    → ((a : A) → Each Q (k a))
    → Each Q (r >>= k)
Each-any Q none next = failed
Each-any Q (some a) next = next a

pub Each-if :
    {A : Type 0} {P : A → Type 0} (b : Bool) {x y : Option A}
    → Each P x
    → Each P y
    → Each P (if b then x else y)
Each-if true p q = p
Each-if false p q = q

pub IsKept-store_block :
    {fs fs₁ : Fs} (blk : ℕ) (bytes : Bytes)
    → IsKept fs fs₁
    → Each (IsKept fs) (store_block fs₁ blk bytes)
unfolding store_block put_block
IsKept-store_block {fs} {fs₁} blk bytes v =
    let low : fs₁.ps < 2 ^ 31 = omega (arith, v.ps, v.start) in
    Each-if _ failed (
      gives (
        IsKept-trans v (record {
          ps = refl;
          maps = refl;
          start = low;
          size = ground arith;
          before = λ y l q. ground (arith, l, q, low);
        })))

-- The results of the functions, with the file system in the place that it has there.
module _ (fs : Fs) where
  abbrev pub Second : {A : Type 0} → A × Fs → Type 0
  Second r = IsKept fs r.1

  abbrev pub Third : {A B : Type 0} → A × B × Fs → Type 0
  Third r = IsKept fs r.2

  take_zone-IsKept : (fs₁ : Fs) → IsKept fs fs₁ → Each Second (take_zone fs₁)
  unfolding take_zone
  take_zone-IsKept fs₁ v = Each-if _ failed (gives (IsKept-next v refl refl refl))

  indirect-IsKept :
      (i : ℕ) (fresh : Bool) (fs₁ : Fs) (inode : Inode)
      → IsKept fs fs₁
      → Each Second (indirect i fresh fs₁ inode)
  unfolding indirect
  indirect-IsKept i fresh fs₁ inode v =
      Each-if fresh (Each-bind Second Second (take_zone-IsKept fs₁ v) (λ r w. gives w)) (gives v)

  enter-IsKept :
      (fs₁ : Fs) (blk : ℕ) (bytes : Bytes) (i : ℕ)
      → IsKept fs fs₁
      → Each Third (enter fs₁ blk bytes i)
  unfolding enter
  enter-IsKept fs₁ blk bytes i v = Each-bind Second Third (take_zone-IsKept fs₁ v) (λ r w.
      Each-bind (IsKept fs) Third (IsKept-store_block blk (set_short i r.0 bytes) w)
        (λ fs₁ u. gives u))

  inner-IsKept :
      (fresh : Bool) (i blk : ℕ) (bytes : Bytes) (fs₁ : Fs)
      → IsKept fs fs₁
      → Each Second (inner fresh i blk bytes fs₁)
  unfolding inner
  inner-IsKept fresh i blk bytes fs₁ v =
      Each-if fresh (Each-bind Third Second (enter-IsKept fs₁ blk bytes i v) (λ r w. gives w))
        (gives v)

  pub add_file_block-IsKept :
      (fs₁ : Fs) (inode : Inode) → IsKept fs fs₁ → Each Third (add_file_block fs₁ inode)
  unfolding add_file_block add_direct add_indirect add_double
  add_file_block-IsKept fs₁ inode v =
      Each-if _ (Each-bind Second Third (take_zone-IsKept fs₁ v) (λ r w. gives w)) (
        Each-if _
          (Each-bind Second Third (indirect-IsKept 7 _ fs₁ inode v) (λ p w.
            Each-any Third _
              (λ bytes. Each-bind Third Third (enter-IsKept p.1 _ bytes _ w) (λ r u. gives u))))
          (Each-bind Second Third (indirect-IsKept 8 _ fs₁ inode v) (λ p w.
            Each-any Third _ (λ bytes.
              Each-bind Second Third (inner-IsKept _ _ _ bytes p.1 w) (λ q x.
                Each-any Third _ (λ bytes.
                  Each-bind Third Third (enter-IsKept q.1 q.0 bytes _ x) (λ r u. gives u)))))))

  pub save_inode-IsKept :
      (fs₁ : Fs) (i : ℕ) (inode : Inode) → IsKept fs fs₁ → Each (IsKept fs) (save_inode fs₁ i inode)
  unfolding save_inode
  save_inode-IsKept fs₁ i inode v = Each-any (IsKept fs) _ (λ bytes. IsKept-store_block _ _ v)
