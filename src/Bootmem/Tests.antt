-- ===== src/Bootmem/Tests.antt =====
-- Runs and witnesses for mm/bootmem.c: one usable region from 16 MB to 32 MB.
use oscar_kernel.Common.{ℕ, List, [], ◌∷◌}
use oscar_kernel.Bootmem.{Ards, alloc_paddr, bootmem_init}
use oscar_kernel.Bootmem.Invariant.{Serves}
use oscar_kernel.Bootmem.Serve.{alloc_paddr-Serves}
use oscar_kernel.Bootmem.Run.{IsApart, alloc_all, bootmem_init-Inv, bootmem_alloc-IsApart}

abbrev one_region : List Ards
one_region = record { base = 0x1000000; length = 0x1000000; type = 1 } ∷ []

abbrev requests : List ℕ
requests = 0x2000 ∷ 100 ∷ 200 ∷ []

bootmem_alloc-IsApart_example : IsApart (alloc_all (bootmem_init one_region) requests [])
bootmem_alloc-IsApart_example = bootmem_alloc-IsApart one_region requests

alloc_paddr-Serves_example :
    Serves (bootmem_init one_region) [] 100 (alloc_paddr (bootmem_init one_region) 100)
alloc_paddr-Serves_example =
    alloc_paddr-Serves (bootmem_init one_region) [] 100 (bootmem_init-Inv one_region)
