-- ===== src/Bootmem.antt =====
-- mm/bootmem.c, the allocator used before the buddy system, with `struct bootmem` of include/mm.h
-- and `kmalloc` of mm/mm.c. One call runs under the allocator's spin lock, so a call is one step and
-- the lock is left out. Addresses are plain numbers: all memory that the allocator manages lies
-- below 2 ^ 36.
pub mod Page
pub mod Search
pub mod Invariant
pub mod Alloc
pub mod Serve
pub mod Run
pub mod Tests
use oscar_kernel.Common.{
  ℕ, zero, suc, ◌+◌, ◌-◌, ◌*◌, ◌/◌, ◌%◌, ◌^◌, bit_and, bit_or, Bool, true, false, Option, none,
  some, List, [], ◌∷◌, Store, update, ltb, leb, ◌==◌, if◌then◌else◌,
}
use oscar_kernel.Common.Bits.{has_bit, not_bit8}

pub record Bootmem : Type 0 where
  pub bitmap : Store
  pub last_alloc_offset : ℕ
  pub last_alloc_pfn : ℕ

-- The link address of the kernel (arch/x86_64/Link.lds), and the map to it.
abbrev pub kernel_space : ℕ
kernel_space = 0xFFFF800000000000

unfoldable pub phys_to_virt : ℕ → ℕ
phys_to_virt x = (x + kernel_space) % 2 ^ 64

unfoldable pub virt_to_phys : ℕ → ℕ
virt_to_phys x = (x + 2 ^ 64 - kernel_space) % 2 ^ 64

-- `roundup` of include/math.h.
pub roundup : ℕ → ℕ → ℕ
roundup x y = (x + (y - 1)) / y * y

abbrev byte_index : ℕ → ℕ
byte_index paddr = paddr / 2 ^ 15

abbrev bit_index : ℕ → ℕ
bit_index paddr = paddr / 2 ^ 12 % 8

pub set_bootmem_bitmap : Bootmem → ℕ → Bootmem
set_bootmem_bitmap b paddr =
    let byte = b.bitmap (byte_index paddr) in
    record b { bitmap = update b.bitmap (byte_index paddr) (bit_or byte (2 ^ bit_index paddr)) }

pub clear_bootmem_bitmap : Bootmem → ℕ → Bootmem
clear_bootmem_bitmap b paddr =
    let byte = b.bitmap (byte_index paddr) in
    record b {
      bitmap = update b.bitmap (byte_index paddr) (bit_and byte (not_bit8 (bit_index paddr)));
    }

-- Whether the result is not 0.
pub get_bootmem_bitmap : Bootmem → ℕ → Bool
get_bootmem_bitmap b paddr = has_bit (b.bitmap (byte_index paddr)) (bit_index paddr)

-- The rounds left, and the loop's `addr` and `paddr + size`.
set_area_from : ℕ → ℕ → ℕ → Bootmem → Bootmem
set_area_from zero addr end b = b
set_area_from (suc left) addr end b =
    let rest = set_area_from left (addr + 0x1000) end (set_bootmem_bitmap b addr) in
    if ltb addr end then rest else b

clear_area_from : ℕ → ℕ → ℕ → Bootmem → Bootmem
clear_area_from zero addr end b = b
clear_area_from (suc left) addr end b =
    let rest = clear_area_from left (addr + 0x1000) end (clear_bootmem_bitmap b addr) in
    if ltb addr end then rest else b

-- `size / 0x1000 + 1` rounds reach the end of the area.
pub set_bootmem_bitmap_area : Bootmem → ℕ → ℕ → Bootmem
set_bootmem_bitmap_area b paddr size = set_area_from (size / 0x1000 + 1) paddr (paddr + size) b

pub clear_bootmem_bitmap_area : Bootmem → ℕ → ℕ → Bootmem
clear_bootmem_bitmap_area b paddr size = clear_area_from (size / 0x1000 + 1) paddr (paddr + size) b

-- The inner loop of `find_free_bitmap`, over `addr2` with the rounds left up to 64 GB: whether it
-- returns `addr1`.
free_run : Bootmem → ℕ → ℕ → ℕ → ℕ → Bool
free_run b size addr1 zero addr2 = false
free_run b size addr1 (suc left) addr2 =
    let rest = free_run b size addr1 left (addr2 + 0x1000) in
    if get_bootmem_bitmap b addr2 then false else if leb size (addr2 - addr1) then true else rest

find_free_from : Bootmem → ℕ → ℕ → ℕ → Option ℕ
unfolding free_run
find_free_from b size zero addr1 = none
find_free_from b size (suc left) addr1 =
    let rest = find_free_from b size left (addr1 + 0x1000) in
    if get_bootmem_bitmap b addr1
    then rest
    else if free_run b size addr1 (suc left) addr1
    then some addr1
    else rest

-- 64 * 0x40000000 bytes are 0x1000000 pages. `none` is the -1.
pub find_free_bitmap : Bootmem → ℕ → Option ℕ
unfolding find_free_from
find_free_bitmap b size = find_free_from b size 0x1000000 0

-- The four ways in which `bootmem_alloc` chooses `paddr`; the `Option` is what the search found.
pub alloc_pages : Bootmem → ℕ → Option ℕ → Bootmem × Option ℕ
alloc_pages b size none = (b, none)
alloc_pages b size (some paddr) = (set_bootmem_bitmap_area b paddr size, some paddr)

-- The next page is taken on, though the test is of the page `last_alloc_pfn` itself.
alloc_across : Bootmem → ℕ → Bootmem × Option ℕ
alloc_across b size = (
  record (set_bootmem_bitmap b (b.last_alloc_pfn * 0x1000 + size)) {
    last_alloc_offset = roundup ((b.last_alloc_offset + size) % 0x1000) 64;
    last_alloc_pfn = b.last_alloc_pfn + 1;
  },
  some (b.last_alloc_pfn * 0x1000 + b.last_alloc_offset),
)

pub alloc_page : Bootmem → ℕ → ℕ → Option ℕ → Bootmem × Option ℕ
alloc_page b size offset none = (b, none)
alloc_page b size offset (some paddr) = (
  set_bootmem_bitmap_area (record b { last_alloc_offset = offset; last_alloc_pfn = paddr / 0x1000 })
      paddr size,
  some paddr,
)

alloc_in_page : Bootmem → ℕ → Bootmem × Option ℕ
alloc_in_page b size = (
  record b { last_alloc_offset = roundup ((b.last_alloc_offset + size) % 0x1000) 64 },
  some (b.last_alloc_pfn * 0x1000 + b.last_alloc_offset),
)

-- Lines 90 to 126: the new state and `paddr`.
pub alloc_paddr : Bootmem → ℕ → Bootmem × Option ℕ
unfolding alloc_pages alloc_across alloc_page alloc_in_page
alloc_paddr b size =
    if leb 0x1000 size
    then (let b' = record b { last_alloc_offset = 0 } in
        alloc_pages b' size (find_free_bitmap b' size))
    else if ltb 0x1000 (b.last_alloc_offset + size)
    then (if get_bootmem_bitmap b (b.last_alloc_pfn * 0x1000 + size)
        then alloc_page b size 0 (find_free_bitmap b 0x1000)
        else alloc_across b size)
    else if b.last_alloc_offset == 0
    then alloc_page b size (roundup ((b.last_alloc_offset + size) % 0x1000) 64)
        (find_free_bitmap b 0x1000)
    else alloc_in_page b size

-- The pointer, 0 on failure.
virt_or_null : Option ℕ → ℕ
virt_or_null none = 0
virt_or_null (some paddr) = phys_to_virt paddr

pub bootmem_alloc : Bootmem → ℕ → Bootmem × ℕ
unfolding virt_or_null
bootmem_alloc b size = let (b', paddr) = alloc_paddr b size in (b', virt_or_null paddr)

pub bootmem_free : Bootmem → ℕ → Bootmem
bootmem_free b vaddr = clear_bootmem_bitmap b (virt_to_phys vaddr)

-- An entry of the memory map (`struct ards` of include/kernel.h).
pub record Ards : Type 0 where
  pub base : ℕ
  pub length : ℕ
  pub type : ℕ

clear_usable : Ards → Bootmem → Bootmem
clear_usable a b =
    if a.type == 1
    then (if ltb 0x1000000000 (a.base + a.length)
        then b
        else clear_bootmem_bitmap_area b a.base a.length)
    else b

clear_all_usable : List Ards → Bootmem → Bootmem
clear_all_usable [] b = b
clear_all_usable (a ∷ as') b = clear_all_usable as' (clear_usable a b)

is_empty : List Ards → Bool
is_empty [] = true
is_empty (a ∷ as') = false

-- `memset` has set every bit of the bitmap's 0x200000 bytes; what lies behind them is never read.
all_busy : Bootmem
all_busy = record { bitmap = λ _. 0xff; last_alloc_offset = 0; last_alloc_pfn = 1 }

-- The argument is the boot loader's memory map, `ardc_array` up to `ardc_cnt`.
pub bootmem_init : List Ards → Bootmem
unfolding clear_all_usable clear_usable is_empty all_busy
bootmem_init map_entries =
    let b = clear_all_usable map_entries all_busy in
    let b' = if is_empty map_entries then clear_bootmem_bitmap_area b 0 0x100000000 else b in
    set_bootmem_bitmap_area b' 0 0x1000000
