-- ===== src/Topology/Numa.antt =====
-- arch/x86_64/mm/numa.c: the nodes of the machine out of the firmware's tables. A table is the list of
-- its entries, which a step of the loop reads one by one; kmalloc has memory. Proximity domains are
-- below 64, the length of `node_bitmap`.
use oscar_kernel.Common.{
  ℕ, ◌||◌, Option, none, some, List, [], ◌∷◌, bit_and, Store, update, ◌==◌, if◌then◌else◌, set,
  get_elem?,
}
use oscar_kernel.Topology.{
  Cpu, Node, Machine, mm_node_init, mm_node_register, mm_get_node_by_id, mm_zone_register,
  register_cpu_remote,
}

-- The subtables of the SRAT; the loop skips the types that it does not read.
pub data SratEntry : Type 0 where
  cpu_affinity : (flags proximity_domain_lo apic_id : ℕ) → SratEntry
  mem_affinity : (proximity_domain base_address length : ℕ) → SratEntry
  skipped : SratEntry

-- The entries of the MADT.
pub data MadtEntry : Type 0 where
  processor_local_apic : (flags apic_id : ℕ) → MadtEntry
  other_entry : MadtEntry

-- An element of `ardc_array`, the boot loader's memory map.
pub record Ardc : Type 0 where
  pub base : ℕ
  pub length : ℕ
  pub type : ℕ

-- The machine and `node_bitmap`.
pub record NumaState : Type 0 where
  pub machine : Machine
  pub node_bitmap : Store

-- What `kmalloc` gives for a node or a processor, before its fields are set.
module _ (raw_node : Node) (raw_cpu : Cpu) where
  -- A new node for a domain: initialised, given its id, and registered with what `fill` adds to it
  -- through the pointer afterwards.
  unfoldable pub new_node : Machine → ℕ → (Machine → Node → Machine × Node) → Machine
  unfolding mm_node_init mm_node_register
  new_node m id fill =
      let (m1, node) = mm_node_init m raw_node in
      let (m2, node') = fill m1 (record node { socket_id = id }) in mm_node_register m2 node'

  -- The change of a node through its pointer, at its place in the list.
  unfoldable pub put_node : Machine → ℕ → (Machine → Node → Machine × Node) → Option Node → Machine
  put_node m i fill none = m
  put_node m i fill (some node) =
      let (m', node') = fill m node in record m' { node_list = set m'.node_list i node' }

  unfoldable pub on_node : Machine → Option ℕ → (Machine → Node → Machine × Node) → Machine
  unfolding put_node
  on_node m none fill = m
  on_node m (some i) fill = put_node m i fill (get_elem? m.node_list i)

  -- The two branches that add something to a domain's node, and the mark of the domain.
  unfoldable pub add_to_domain : NumaState → ℕ → (Machine → Node → Machine × Node) → NumaState
  unfolding new_node on_node mm_get_node_by_id
  add_to_domain s domain fill =
      if s.node_bitmap domain == 0
      then record {
        machine = new_node s.machine domain fill;
        node_bitmap = update s.node_bitmap domain 1;
      }
      else record s { machine = on_node s.machine (mm_get_node_by_id s.machine domain) fill }

  -- One step of the loop over the SRAT.
  unfoldable pub srat_step : NumaState → SratEntry → NumaState
  unfolding add_to_domain
  srat_step s (cpu_affinity flags domain apic_id) =
      if bit_and flags 1 == 0
      then s
      else add_to_domain s domain (λ m node. register_cpu_remote m (some raw_cpu) apic_id node)
  srat_step s (mem_affinity domain base_address size) =
      if size == 0
      then s
      else add_to_domain s domain (λ m node.
        (m, mm_zone_register node (record { start_pfn = base_address; pfn_cnt = size })))
  srat_step s skipped = s

  unfoldable pub srat_loop : NumaState → List SratEntry → NumaState
  unfolding srat_step
  srat_loop s [] = s
  srat_loop s (e ∷ es) = srat_loop (srat_step s e) es

  unfoldable pub madt_step : Machine → Node → MadtEntry → Machine × Node
  madt_step m node (processor_local_apic flags apic_id) =
      if bit_and flags 1 == 0 then (m, node) else register_cpu_remote m (some raw_cpu) apic_id node
  madt_step m node other_entry = (m, node)

  unfoldable pub madt_loop : Machine → Node → List MadtEntry → Machine × Node
  unfolding madt_step
  madt_loop m node [] = (m, node)
  madt_loop m node (e ∷ es) = let (m', node') = madt_step m node e in madt_loop m' node' es

  ardc_loop : Node → List Ardc → Node
  unfolding mm_zone_register
  ardc_loop node [] = node
  ardc_loop node (a ∷ rest) =
      ardc_loop
        (if a.type == 1 || (a.type == 2)
          then mm_zone_register node (record { start_pfn = a.base; pfn_cnt = a.length })
          else node)
        rest

  -- The processors of the fallback; without a MADT the only one has id 0.
  unfoldable pub fallback_cpus : Machine → Node → Option (List MadtEntry) → Machine × Node
  unfolding madt_loop
  fallback_cpus m node none = register_cpu_remote m (some raw_cpu) 0 node
  fallback_cpus m node (some es) = madt_loop m node es

  -- The first node that is allocated here only makes the list of nodes empty.
  unfoldable pub fallback : Machine → Option (List MadtEntry) → List Ardc → Machine
  unfolding fallback_cpus ardc_loop
  fallback m madt ardc =
      let (m1, lost) = mm_node_init m raw_node in
      let (m2, node) =
        fallback_cpus m1 (record raw_node { cpu_list = []; zone_list = []; socket_id = 0 }) madt in
      mm_node_register m2 (ardc_loop node ardc)

  unfoldable pub arch_numa_init :
      Machine → Option (List SratEntry) → Option (List MadtEntry) → List Ardc → Machine
  unfolding srat_loop fallback
  arch_numa_init m none madt ardc = fallback m madt ardc
  arch_numa_init m (some es) madt ardc =
      (srat_loop (record { machine = m; node_bitmap = λ i. 0 }) es).machine
