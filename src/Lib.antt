-- ===== src/Lib.antt =====
-- A model of Oscar-Kernel: the parts of the kernel whose work is computed in its own code. Paths are
-- from the repository's root.
--
-- The parts and the files that model them:
--   Common    what the others share: Boolean tests, native lists, flat memory, bit operations, loops.
--   Bitmap    include/bitmap.h and the rounding macros of include/math.h: `bitmap_get`, `bitmap_set`,
--             `bitmap_clear`, `bitmap_find_free`, `bitmap_find_free_region`, `bitmap_allocate_bits`,
--             `bitmap_allocate_bits_aligned`. A bitmap is a size and its bytes.
--   Bootmem   mm/bootmem.c: the page bitmap, `find_free_bitmap`, `bootmem_alloc` (whose choice of an
--             address is `alloc_paddr`), `bootmem_free`, `bootmem_init`.
--   Sched     kernel/task.c: run queues, `pick_next_task`, `schedule`, `task_timer_tick`,
--             `create_task`, `cpu_min_load`, `migrate_task`, `task_exit`. Tasks are a heap by pid.
--   Topology  mm/mm.c, kernel/cpu.c and arch/x86_64/mm/numa.c: nodes with their zones and processors;
--             Topology.Irq is kernel/irq.c, which takes vectors out of each processor's Bitmap.
--   Mmu       arch/x86_64/kvm/vmx/mmu.c: `ept_gpa_to_hpa`, `ept_gpa_to_hpa_any`,
--             `paging64_gva_to_gpa`, `nested_ept_l2gpa_to_l1gpa` over memory of 64-bit words. Mmu.Map
--             is the other direction: `ept_map_page` of arch/x86_64/kvm/vmx/vmx.c and
--             `alloc_new_page` of arch/x86_64/mm/fault.c, which fill page tables; Mmu.Shadow joins both in
--             `nested_vmx_handle_ept_volation` of arch/x86_64/kvm/vmx/nested.c.
--             Mmu.Guest is `read_guest_memory_gpa` and `write_guest_memory_gpa` of vmx.c there.
--   Nested    arch/x86_64/kvm/vmx/nested.c and the loop of `vmx_run`: which VMCS is current and
--             launched, the copies between `vmcs12` and the shadow VMCS, `nested_vmx_run` and
--             `nested_vmx_vmexit`; Nested.Registers are the guest's registers. The instructions VMCLEAR,
--             VMPTRLD, VMLAUNCH and VMRESUME are the processor's side, as its architecture documents
--             them; its checks of the fields at an entry are a parameter.
--   Vmx       arch/x86_64/kvm/vmx/vmx.c: `vm_exit_handler` and its handlers: CPUID, I/O, control
--             registers, XSETBV; exits that change only what Mmu and Nested model are parameters.
--   Screen    drivers/video/fbdev/boot_fb.c and fb.c: areas of the framebuffers that are filled, copied
--             and blitted; Screen.Console is drivers/console/graphic_console.c: characters, the cursor
--             and scrolling, with `write_console` of drivers/console/console.c.
--   Strings   lib/string.c: memory and string functions; Strings.Print is `vsprintf`.
--   Pci       drivers/pci/pci.c and the inline functions of include/pci.h on one device; what a
--             device answers to reads and writes of its configuration space is a parameter.
--             Pci.Bridge is arch/x86_64/pci.c: the two ways to configuration space, and MSI messages.
--   Ethernet  drivers/ethernet/intel/x550.c: the transmit and receive rings (`tx_init`, `rx_init`,
--             `packet_transmit`) and `ixgbe_intr`. What the card answers to reads is a parameter, and
--             `Ethernet.Transmit.fetch` is the card's side, as its documentation has it.
--   Xhci      drivers/usb/xhci.c: the command ring (`xhci_cmd_ring_insert`) and the commands, the
--             transfer rings (`xhci_insert_transfer_trb`) and the transfers, the searches of the
--             event ring and the interrupt handler. `Xhci.Ring.consume` is the controller's side,
--             as its specification documents it.
--
-- How they interact: interrupt vectors are runs of a Bitmap, PCI interrupts are interrupt vectors, the
-- page walks, the page tables and the rings use the map between physical and kernel addresses that
-- Bootmem uses, the handlers of Vmx read the registers of Nested, and what `kmalloc` gives, which is
-- `bootmem_alloc`, is an argument where it is used.
--
-- Conventions: numbers are natural numbers, with `% 2 ^ w` where the code relies on or is exposed to
-- wrap-around; a file says where it takes a bound for granted. -1, NULL and -EINVAL are `none`.
-- A lock that spans an operation makes it one step. Linked lists are lists in order.
--
-- Fuel: `pick_next_task` takes a number of rounds of its `repick` loop, and two are enough where
-- running tasks have priorities. The string functions take one more than the length of the string.
-- `i2a` takes the number of digits, and 64 are enough for 64-bit numbers. `pci_find_capability` takes
-- one more than the length of the capability list. `xhci_intr` takes a number of rounds, and two more
-- than the events that are pending are enough; the waits of Xhci take the number of their rounds, which
-- the code has as a constant. The other loops have their bounds from the code.
--
-- Not modelled: assembly, descriptor tables and control registers; drivers of devices (graphics, and
-- the devices on USB), the reset of the network card; ACPI, local APIC and IOMMU; how the control
-- fields of a VMCS and the memory of a guest are set up; the code taken over from the Linux kernel
-- (include/list.h, arch/x86_64/kvm/vmx/vmcs12.c); the messages that are printed.
pub mod Common
pub mod Bitmap
pub mod Bootmem
pub mod Ethernet
pub mod Mmu
pub mod Nested
pub mod Pci
pub mod Sched
pub mod Screen
pub mod Strings
pub mod Topology
pub mod Vmx
pub mod Xhci
