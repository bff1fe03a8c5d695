-- ===== src/Topology/Tests.antt =====
-- Runs and witnesses for the nodes, processors and vectors: one node with processor 4, whose vectors 0
-- and 1 of 32 are in use.
use oscar_kernel.Common.{map, ◌≡◌, refl, some, List, [], ◌∷◌, ◌==◌, if◌then◌else◌, arith}
use oscar_kernel.Bitmap.{
  Bitmap, bitmap_get, bitmap_allocate_bits, bitmap_find_free_region, find_region, region_free,
  mark_run, set_range,
}
use oscar_kernel.Topology.{Zone, Cpu, Node, Machine, cpus}
use oscar_kernel.Topology.Visit.{flat, bare, nodes_after}
use oscar_kernel.Topology.Irq.{take_vectors, alloc_irqs_cpu, try_alloc_on}
use oscar_kernel.Topology.Vectors.{Granted, alloc_irqs_cpu-Granted}
use oscar_kernel.Topology.Numa.{SratEntry}
use oscar_kernel.Topology.Numa.SratEntry.{cpu_affinity, mem_affinity}

abbrev bits : Bitmap
bits = record { bitmap_data = λ i. if i == 0 then 3 else 0; size = 32 }

abbrev cpu4 : Cpu
cpu4 = record {
  index = 0;
  id = 4;
  status = 1;
  irq_stack = 0;
  tmp_stack = 0;
  irq_nr = 2;
  irq_bitmap = bits;
  irq_desc = λ i. record { count = 0; irq_action_list = [] };
}

abbrev node0 : Node
node0 = record {
  socket_id = 0;
  zone_list = record { start_pfn = 16; pfn_cnt = 16 } ∷ [];
  cpu_list = cpu4 ∷ [];
}

abbrev machine : Machine
machine = record { node_list = node0 ∷ []; nr_cpus = 1 }

abbrev next_zone : Zone
next_zone = record { start_pfn = 32; pfn_cnt = 8 }

alloc_irqs_cpu-Granted_example :
    Granted 4 2 (cpus (node0 ∷ [])) (flat (alloc_irqs_cpu (node0 ∷ []) 4 2))
    × (map bare (nodes_after (node0 ∷ []) (alloc_irqs_cpu (node0 ∷ []) 4 2))
        ≡ map bare (node0 ∷ []))
alloc_irqs_cpu-Granted_example = alloc_irqs_cpu-Granted (node0 ∷ []) 4 2 (omega arith)

abbrev cpu4_after : Cpu
cpu4_after = record cpu4 { irq_nr = 3; irq_bitmap = set_range 1 2 bits }

takes_two : try_alloc_on cpu4.id 1 cpu4 ≡ some (cpu4_after, 2)
unfolding try_alloc_on take_vectors bitmap_allocate_bits bitmap_find_free_region find_region
    region_free mark_run bitmap_get
takes_two = refl

abbrev two_domains : List SratEntry
two_domains = cpu_affinity 1 0 4 ∷ mem_affinity 1 0x100000 0x1000 ∷ []
