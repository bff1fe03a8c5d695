-- ===== src/Mmu/Map.antt =====
-- The functions that fill page tables: `ept_map_page` of arch/x86_64/kvm/vmx/vmx.c and
-- `alloc_new_page` of arch/x86_64/mm/fault.c. Memory is written a 64-bit word at a time; the page
-- that `kmalloc` gives for each level is an argument. The translation cache of the
-- processor is left out.
use oscar_kernel.Common.{
  ℕ, ◌+◌, ◌*◌, ◌%◌, ◌^◌, bit_or, Bool, false, not, ◌&&◌, Store, update, ◌==◌, leb, ltb,
  if◌then◌else◌,
}
use oscar_kernel.Bootmem.{phys_to_virt, virt_to_phys}
use oscar_kernel.Mmu.{pml4t_index, pdpt_index, pd_index, pt_index, pt_entry_addr}

pub record Pages : Type 0 where
  pub first : ℕ
  pub second : ℕ
  pub third : ℕ
  pub fourth : ℕ

-- `memset(page, 0, 0x1000)`.
abbrev pub zero_page : Store → ℕ → Store
zero_page mem page a = if leb page a && ltb a (page + 0x1000) then 0 else mem a

-- The address of `table[index]`.
abbrev pub slot : ℕ → ℕ → ℕ
slot table index = (table + 8 * index) % 2 ^ 64

-- `(u64 *)PHYS2VIRT(entry & ~0xfff)`.
abbrev pub table_of : ℕ → ℕ
table_of entry = phys_to_virt (pt_entry_addr entry)

-- A new table in a slot that is `empty`.
unfoldable pub link_table : (ℕ → Bool) → ℕ → Store → ℕ → ℕ → Store
link_table empty flags mem at page =
    if empty (mem at)
    then update (zero_page mem page) at (bit_or (virt_to_phys page) flags)
    else mem

-- The way down to the tables of an address: the memory after each new table, and the slots.
module _ (empty : ℕ → Bool) (flags : ℕ) (mem : Store) (top addr : ℕ) (pages : Pages) where
  abbrev pub slot4 : ℕ
  slot4 = slot top (pml4t_index addr)

  abbrev pub linked1 : Store
  linked1 = link_table empty flags mem slot4 pages.first

  abbrev pub slot3 : ℕ
  slot3 = slot (table_of (linked1 slot4)) (pdpt_index addr)

  abbrev pub linked2 : Store
  linked2 = link_table empty flags linked1 slot3 pages.second

  abbrev pub slot2 : ℕ
  slot2 = slot (table_of (linked2 slot3)) (pd_index addr)

  abbrev pub linked3 : Store
  linked3 = link_table empty flags linked2 slot2 pages.third

  abbrev pub slot1 : ℕ
  slot1 = slot (table_of (linked3 slot2)) (pt_index addr)

abbrev pub is_zero : ℕ → Bool
is_zero e = e == 0

-- `PT_ENTRY_ADDR(e) == 0`.
abbrev pub no_address : ℕ → Bool
no_address e = pt_entry_addr e == 0

-- The table entries are readable, writable, executable and accessed.
unfoldable pub ept_map_page : Store → ℕ → ℕ → ℕ → ℕ → ℕ → Pages → Store
ept_map_page mem eptp_base gpa hpa page_size attribute pages =
    if page_size == 0x40000000
    then update (linked1 is_zero 0x107 mem eptp_base gpa pages)
        (slot3 is_zero 0x107 mem eptp_base gpa pages) (bit_or (bit_or hpa attribute) 0x80)
    else if page_size == 0x200000
    then update (linked2 is_zero 0x107 mem eptp_base gpa pages)
        (slot2 is_zero 0x107 mem eptp_base gpa pages) (bit_or (bit_or hpa attribute) 0x80)
    else if page_size == 0x1000
    then update (linked3 is_zero 0x107 mem eptp_base gpa pages)
        (slot1 is_zero 0x107 mem eptp_base gpa pages) (bit_or hpa attribute)
    else linked3 is_zero 0x107 mem eptp_base gpa pages

-- The branch of `vmx_handle_ept_volation` for a guest that is not nested; `kmalloc` for the guest's page
-- comes before those for the tables.
pub vmx_handle_ept_volation : Store → ℕ → ℕ → ℕ → Pages → Store
vmx_handle_ept_volation mem eptp_base gpa page pages =
    ept_map_page mem eptp_base gpa (virt_to_phys page) 0x1000 0x37 pages

abbrev pub page_attr : ℕ → Bool → Bool → ℕ
page_attr cpl rd_only xd =
    bit_or (bit_or (if cpl == 0 then 0 else 4) (if rd_only then 0 else 2))
      (if xd then 2 ^ 63 else 0)

-- A page that is there already is left as it is. A large page is put where no table is yet.
unfoldable pub alloc_new_page : Store → ℕ → ℕ → ℕ → ℕ → Bool → Bool → Pages → Store
alloc_new_page mem cr3 addr page_size cpl rd_only xd pages =
    let top = table_of cr3 in
    let attr = page_attr cpl rd_only xd in
    let one = linked1 no_address 7 mem top addr pages in
    let at3 = slot3 no_address 7 mem top addr pages in
    let two = linked2 no_address 7 mem top addr pages in
    let at2 = slot2 no_address 7 mem top addr pages in
    let three = linked3 no_address 7 mem top addr pages in
    let at1 = slot1 no_address 7 mem top addr pages in
    if no_address (one at3) && (page_size == 0x40000000)
    then update one at3 (bit_or (virt_to_phys pages.second) (bit_or 0x81 attr))
    else if no_address (two at2) && (page_size == 0x200000)
    then update two at2 (bit_or (virt_to_phys pages.third) (bit_or 0x81 attr))
    else if no_address (three at1)
    then update (zero_page three pages.fourth) at1
        (bit_or (virt_to_phys pages.fourth) (bit_or 1 attr))
    else three

-- -EINVAL is `false`; `VIRT2PHYS(addr) > addr`.
pub address_check : ℕ → ℕ → Bool
address_check addr cpl =
    if not (cpl == 0) && ltb addr (virt_to_phys addr)
    then false
    else not (addr == 0xffffffff00000000)
