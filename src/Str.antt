-- ===== src/Str.antt =====
-- src/kernel/string.c on the byte memory of Mem/Bitmap: strings and blocks. A loop that ends at a
-- zero byte is on fuel, and `none` says that the fuel ran out.
pub mod Block
pub mod Text
pub mod Number
pub mod Format
mod Tests
use ata_driver.Common.{
  ℕ, zero, suc, ◌+◌, ◌*◌, ◌/◌, ◌%◌, ◌^◌, Bool, true, false, not, ◌&&◌, Option, none, some, List, [],
  ◌∷◌, ◌++◌, ◌==◌, leb, ltb, if◌then◌else◌, length, get_or, replicate, u8, u32,
}
use ata_driver.Mem.Bitmap.{Memory, load8, store8}

-- The results -1, 0 and 1.
pub data Sign : Type 0 where
  minus : Sign
  equal : Sign
  plus : Sign

-- `a < b` on `char`, which is signed.
abbrev pub char_less : ℕ → ℕ → Bool
char_less a b = ltb ((a + 128) % 256) ((b + 128) % 256)

pub strlen : ℕ → Memory → ℕ → ℕ → Option ℕ
strlen zero m s c = none
strlen (suc fuel) m s c =
    let rest = strlen fuel m s (c + 1) in if load8 m (s + c) == 0 then some c else rest

-- The loops with `rounds` rounds left from index `i` on.
pub memset_loop : ℕ → ℕ → ℕ → ℕ → Memory → Memory
memset_loop zero mem value i m = m
memset_loop (suc rounds) mem value i m =
    memset_loop rounds mem value (i + 1) (store8 m (mem + i) value)

pub memset : ℕ → ℕ → ℕ → Memory → Memory
unfolding memset_loop
memset mem value count = memset_loop count mem value 0

pub memcpy_loop : ℕ → ℕ → ℕ → ℕ → Memory → Memory
memcpy_loop zero dst src i m = m
memcpy_loop (suc rounds) dst src i m =
    memcpy_loop rounds dst src (i + 1) (store8 m (dst + i) (load8 m (src + i)))

pub memcpy : ℕ → ℕ → ℕ → Memory → Memory
unfolding memcpy_loop
memcpy dst src count = memcpy_loop count dst src 0

pub memcmp_loop : ℕ → ℕ → ℕ → ℕ → Memory → Sign
memcmp_loop zero p1 p2 i m = equal
memcmp_loop (suc rounds) p1 p2 i m =
    let rest = memcmp_loop rounds p1 p2 (i + 1) m in
    if char_less (load8 m (p1 + i)) (load8 m (p2 + i))
    then minus
    else (if char_less (load8 m (p2 + i)) (load8 m (p1 + i)) then plus else rest)

pub memcmp : ℕ → ℕ → ℕ → Memory → Sign
unfolding memcmp_loop
memcmp p1 p2 count = memcmp_loop count p1 p2 0

pub strcmp : ℕ → Memory → ℕ → ℕ → ℕ → Option Sign
strcmp zero m s z i = none
strcmp (suc fuel) m s z i =
    let rest = strcmp fuel m s z (i + 1) in
    if char_less (load8 m (s + i)) (load8 m (z + i))
    then some minus
    else (if char_less (load8 m (z + i)) (load8 m (s + i))
        then some plus
        else (if load8 m (s + i) == 0 then some equal else rest))

-- The loop and the terminating zero behind it.
pub strcpy : ℕ → ℕ → ℕ → ℕ → Memory → Option Memory
strcpy zero dst src i m = none
strcpy (suc fuel) dst src i m =
    let rest = strcpy fuel dst src (i + 1) (store8 m (dst + i) (load8 m (src + i))) in
    if load8 m (src + i) == 0 then some (store8 m (dst + i) 0) else rest

-- The two `while` loops of `strtok`, from the static `ptr`.
pub skip_delims : ℕ → Memory → ℕ → ℕ → Option ℕ
skip_delims zero m delim ptr = none
skip_delims (suc fuel) m delim ptr =
    let rest = skip_delims fuel m delim (ptr + 1) in
    if not (load8 m ptr == delim) then some ptr else (if load8 m ptr == 0 then some ptr else rest)

pub find_delim : ℕ → Memory → ℕ → ℕ → Option ℕ
find_delim zero m delim ptr = none
find_delim (suc fuel) m delim ptr =
    let rest = find_delim fuel m delim (ptr + 1) in
    if load8 m ptr == delim then some ptr else (if load8 m ptr == 0 then some ptr else rest)

-- The result (`none` for NULL), the new `ptr` and the memory.
pub cut : Memory → ℕ → ℕ → Option ℕ × ℕ × Memory
cut m p ptr = if load8 m ptr == 0 then (some p, ptr, m) else (some p, ptr + 1, store8 m ptr 0)

-- `str` is `none` for NULL.
pub strtok : ℕ → Option ℕ → ℕ → ℕ → Memory → Option (Option ℕ × ℕ × Memory)
unfolding skip_delims find_delim cut
strtok fuel str delim ptr m =
    let start : ℕ = elim str [ none ↦ ptr | some s ↦ s ] in
    elim (skip_delims fuel m delim start) [
      | none ↦ none
      | some p ↦
          if load8 m p == 0
          then some (none, p, m)
          else elim (find_delim fuel m delim p) [ none ↦ none | some q ↦ some (cut m p q) ]
    ]
