-- ===== src/Mem/Heap.antt =====
-- The kernel heap of src/kernel/drivers/mem.c: `kalloc` and `kfree` on the doubly linked list of
-- entries. The entries are a store by address, beside the frame bitmap; the static `mem_head`
-- stands at `head_addr`. Addresses and sizes are 32-bit numbers.
pub mod Grant
pub mod Seg
pub mod Carve
pub mod Walk
pub mod Grow
pub mod Spec
pub mod Place
pub mod Serve
pub mod Join
pub mod Release
pub mod Free
pub mod RoundTrip
pub mod Start
mod Tests
use ata_driver.Common.{
  ℕ, zero, suc, ◌+◌, ◌-◌, ◌*◌, ◌/◌, ◌%◌, ◌^◌, Bool, true, false, not, ◌&&◌, ◌||◌, Option, none,
  some, ◌==◌, ltb, if◌then◌else◌, u32, sub32,
}
use ata_driver.Mem.Bitmap.{Memory}
use ata_driver.Mem.Frames.{frame_size, allocate_frames}

-- `struct mem_entry`; the size counts units of 16 bytes, and 0 is NULL.
pub record Entry : Type 0 where
  pub next : ℕ
  pub prev : ℕ
  pub size : ℕ
  pub flags : ℕ

pub record Heap : Type 0 where
  pub entry : ℕ → Entry
  pub bitmap : Memory

abbrev pub entry_size : ℕ
entry_size = 16

abbrev pub flag_null : ℕ
flag_null = 0x00000000

abbrev pub flag_free : ℕ
flag_free = 0x00000001

abbrev pub flag_used : ℕ
flag_used = 0x00000002

abbrev pub kernel_first_frame : ℕ
kernel_first_frame = 256

abbrev pub user_first_frame : ℕ
user_first_frame = 768

-- `*a = e`.
abbrev pub put : ℕ → Entry → Heap → Heap
put a e h = record h { entry = λ x. if x == a then e else h.entry x }

-- The updates of one field of the entry at `a`.
abbrev pub put_next : ℕ → ℕ → Heap → Heap
put_next a v h = put a (let e = h.entry a in record e { next = v }) h

abbrev pub put_prev : ℕ → ℕ → Heap → Heap
put_prev a v h = put a (let e = h.entry a in record e { prev = v }) h

abbrev pub put_size : ℕ → ℕ → Heap → Heap
put_size a v h = put a (let e = h.entry a in record e { size = v }) h

abbrev pub put_flags : ℕ → ℕ → Heap → Heap
put_flags a v h = put a (let e = h.entry a in record e { flags = v }) h

-- `if (a != NULL) a->prev = v;`
abbrev pub put_prev_of : ℕ → ℕ → Heap → Heap
put_prev_of a v h = if a == 0 then h else put_prev a v h

unfoldable pub kalloc_init : ℕ → Heap → Heap
kalloc_init head_addr h =
    put head_addr (record { next = 0; prev = 0; size = 0; flags = flag_null }) h

pub units_of : ℕ → ℕ
units_of bytes = bytes / entry_size + (if ltb 0 (bytes % entry_size) then 1 else 0)

-- The number of frames for an entry and its `units`.
pub frames_of : ℕ → ℕ
frames_of units =
    let bytes = u32 ((units + 1) * entry_size) in
    bytes / frame_size + (if ltb 0 (bytes % frame_size) then 1 else 0)

-- The part of a free entry behind its first `units` becomes an entry of its own.
pub split : ℕ → ℕ → Heap → Heap
split e units h =
    let n = u32 (e + (units + 1) * entry_size) in
    let h = put_flags n flag_free h in
    let h = put_size n (sub32 (sub32 (h.entry e).size units) 1) h in
    let h = put_next n (h.entry e).next h in
    let h = put_prev_of (h.entry n).next n h in
    let h = put_prev n e h in
    let h = put_next e n h in let h = put_size e units h in put_flags e flag_used h

-- The new entry at `n` behind `e`, with the space of `frames` frames.
pub append_frames : ℕ → ℕ → ℕ → Heap → Heap
append_frames e n frames h =
    let h = put_next e n h in
    let h = put_prev n e h in
    let h = put_next n 0 h in
    let h = put_flags n flag_free h in
    put_size n (sub32 (u32 (frames * frame_size) / entry_size) 1) h

-- The loop at the entry `e`: the address returned, 0 for NULL, and the heap. `none`: the fuel ran
-- out.
pub kalloc_loop : ℕ → ℕ → ℕ → ℕ → Heap → Option (ℕ × Heap)
unfolding frames_of split append_frames
kalloc_loop zero total units e h = none
kalloc_loop (suc fuel) total units e h =
    let frames = frames_of units in
    let (n, bitmap) = allocate_frames total frames kernel_first_frame user_first_frame h.bitmap in
    let grown = append_frames e n frames (record h { bitmap = bitmap }) in
    let onward = kalloc_loop fuel total units (h.entry e).next h in
    let again = kalloc_loop fuel total units n grown in
    let here = h.entry e in
    let is_free = here.flags == flag_free in
    if is_free && (here.size == units || here.size == u32 (units + 1))
    then some (e + entry_size, put_flags e flag_used h)
    else (if is_free && ltb (u32 (units + 1)) here.size
        then some (e + entry_size, split e units h)
        else (if not (here.next == 0)
            then onward
            else (if n == 0 then some (0, record h { bitmap = bitmap }) else again)))

pub kalloc : ℕ → ℕ → ℕ → ℕ → Heap → Option (ℕ × Heap)
unfolding units_of kalloc_loop
kalloc fuel total head_addr bytes h = kalloc_loop fuel total (units_of bytes) head_addr h

-- Joins `a` with the entry `b` behind it, which becomes part of `a`.
pub join : ℕ → ℕ → Heap → Heap
join a b h =
    let h = put_size a (u32 ((h.entry a).size + (h.entry b).size + 1)) h in
    let h = put_next a (h.entry b).next h in put_prev_of (h.entry a).next a h

-- Joins `f` with the entry after it, if that is free.
pub join_next : ℕ → Heap → Heap
join_next f h =
    let after = (h.entry f).next in
    if not (after == 0) && (h.entry after).flags == flag_free then join f after h else h

-- Joins `e` with the entry `f` after it, if `e` is free.
pub join_prev : ℕ → ℕ → Heap → Heap
join_prev e f h = if (h.entry e).flags == flag_free then join e f h else h

-- Frees `f`, whose predecessor is `e`.
pub release : ℕ → ℕ → Heap → Heap
release e f h =
    if (h.entry f).flags == flag_free
    then h
    else join_prev e f (join_next f (put_flags f flag_free h))

pub kfree_loop : ℕ → ℕ → ℕ → Heap → Option Heap
kfree_loop zero ptr e h = none
kfree_loop (suc fuel) ptr e h =
    let f = (h.entry e).next in
    let onward = kfree_loop fuel ptr f h in
    if f == 0 then some h else (if f + entry_size == ptr then some (release e f h) else onward)

pub kfree : ℕ → ℕ → ℕ → Heap → Option Heap
unfolding kfree_loop
kfree fuel head_addr ptr h = if ptr == 0 then some h else kfree_loop fuel ptr head_addr h
