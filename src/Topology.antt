-- ===== src/Topology.antt =====
-- mm/mm.c, kernel/cpu.c, kernel/irq.c and arch/x86_64/mm/numa.c with their structures in
-- include/mm.h, include/cpu.h and include/irq.h: the nodes, their processors and memory zones, and
-- the interrupt vectors of each processor. The linked lists are lists in order; an object reached by
-- pointer is changed in place in the list that holds it.
pub mod Zones
pub mod Visit
pub mod Vectors
pub mod Irq
pub mod Numa
pub mod Domains
pub mod Tests
use oscar_kernel.Common.{
  ℕ, zero, suc, ◌+◌, ◌-◌, ◌*◌, ◌/◌, ◌%◌, ◌^◌, Bool, true, false, not, ◌&&◌, Option, none, some,
  List, [], ◌∷◌, ◌++◌, length, leb, ltb, ◌==◌, if◌then◌else◌,
}
use oscar_kernel.Bitmap.{Bitmap}

pub record Zone : Type 0 where
  pub start_pfn : ℕ
  pub pfn_cnt : ℕ

pub record IrqAction : Type 0 where
  pub irq_handler : ℕ
  pub action_data : ℕ
  pub action_name : ℕ

pub record IrqDesc : Type 0 where
  pub count : ℕ
  pub irq_action_list : List IrqAction

-- `struct cpu` and its `struct intr_desc`. `irq_nr` is the 32-bit pattern of the `int`.
pub record Cpu : Type 0 where
  pub index : ℕ
  pub id : ℕ
  pub status : ℕ
  pub irq_stack : ℕ
  pub tmp_stack : ℕ
  pub irq_nr : ℕ
  pub irq_bitmap : Bitmap
  pub irq_desc : ℕ → IrqDesc

pub record Node : Type 0 where
  pub socket_id : ℕ
  pub zone_list : List Zone
  pub cpu_list : List Cpu

pub record Machine : Type 0 where
  pub node_list : List Node
  pub nr_cpus : ℕ

-- `mm_node_init` also makes the global list of nodes empty.
unfoldable pub mm_node_init : Machine → Node → Machine × Node
mm_node_init m node = (record m { node_list = [] }, record node { cpu_list = []; zone_list = [] })

unfoldable pub mm_node_register : Machine → Node → Machine
mm_node_register m node = record m { node_list = m.node_list ++ node ∷ [] }

-- The node as its place in the list; `none` is NULL.
unfoldable pub node_by_id : List Node → ℕ → Option ℕ
node_by_id [] id = none
node_by_id (n ∷ ns) id =
    if n.socket_id == id
    then some 0
    else elim (node_by_id ns id) [ none ↦ none | some i ↦ some (i + 1) ]

unfoldable pub mm_get_node_by_id : Machine → ℕ → Option ℕ
unfolding node_by_id
mm_get_node_by_id m id = node_by_id m.node_list id

-- The loop of `mm_zone_register` over the zones of the node, and the entry at the end.
pub register_zone : List Zone → Zone → List Zone
register_zone [] zone = zone ∷ []
register_zone (z ∷ zs) zone =
    if z.start_pfn + z.pfn_cnt == zone.start_pfn
    then record z { pfn_cnt = z.pfn_cnt + zone.pfn_cnt } ∷ zs
    else if zone.start_pfn + zone.pfn_cnt == z.start_pfn
    then record z { start_pfn = zone.start_pfn; pfn_cnt = z.pfn_cnt + zone.pfn_cnt } ∷ zs
    else z ∷ register_zone zs zone

unfoldable pub mm_zone_register : Node → Zone → Node
mm_zone_register node zone = record node { zone_list = register_zone node.zone_list zone }

-- The first processor of the lists that a test accepts.
pub first_cpu : (Cpu → Bool) → List Cpu → Option Cpu
first_cpu test [] = none
first_cpu test (c ∷ cs) = if test c then some c else first_cpu test cs

pub cpus : List Node → List Cpu
cpus [] = []
cpus (n ∷ ns) = n.cpu_list ++ cpus ns

-- The processor is the one whose local interrupt controller has this id (`arch_cpuid`).
pub get_cpu : Machine → ℕ → Option Cpu
unfolding first_cpu cpus
get_cpu m current_cpu_id = first_cpu (λ c. c.id == current_cpu_id) (cpus m.node_list)

pub get_cpu_by_index : Machine → ℕ → Option Cpu
unfolding first_cpu cpus
get_cpu_by_index m index = first_cpu (λ c. c.index == index) (cpus m.node_list)

-- `fresh` is the allocated memory as `kmalloc` left it, `none` its NULL; -2 is returned then, and
-- the machine stays as it was. The id is what `arch_cpuid` gives, or the argument.
pub register_cpu_local : Machine → Option Cpu → ℕ → Node → Machine × Node
register_cpu_local m none id node = (m, node)
register_cpu_local m (some fresh) id node = (
  record m { nr_cpus = m.nr_cpus + 1 },
  record node { cpu_list = node.cpu_list ++ record fresh { index = m.nr_cpus; id = id } ∷ [] },
)

unfoldable pub register_cpu_remote : Machine → Option Cpu → ℕ → Node → Machine × Node
register_cpu_remote m none id node = (m, node)
register_cpu_remote m (some fresh) id node = (
  record m { nr_cpus = m.nr_cpus + 1 },
  record node {
    cpu_list = node.cpu_list ++ record fresh { index = m.nr_cpus; id = id; status = 0 } ∷ [];
  },
)
