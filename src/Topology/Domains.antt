-- ===== src/Topology/Domains.antt =====
-- How many nodes arch_numa_init leaves registered.
use oscar_kernel.Common.{
  ℕ, ◌≤◌, ◌≡◌, Option, none, some, List, [], ◌∷◌, bit_and, length, length-set, ◌==◌, get_elem?,
  arith, Bool-cases, inl, inr, refl, ap, ◌∙◌,
}
use oscar_kernel.Topology.{
  Zone, Cpu, Node, Machine, mm_node_init, mm_node_register, mm_get_node_by_id, mm_zone_register,
  register_cpu_remote,
}
use oscar_kernel.Topology.Numa.{
  SratEntry, MadtEntry, Ardc, NumaState, new_node, put_node, on_node, madt_step, add_to_domain,
  srat_step, srat_loop, madt_loop, fallback_cpus, fallback, arch_numa_init,
}
use oscar_kernel.Topology.Numa.SratEntry.{cpu_affinity, mem_affinity, skipped}
use oscar_kernel.Topology.Numa.MadtEntry.{processor_local_apic, other_entry}

-- An addition to a node through its pointer leaves the list of nodes alone.
abbrev Keeps : (Machine → Node → Machine × Node) → Type 0
Keeps fill = (m : Machine) (node : Node) → (fill m node).0.node_list ≡ m.node_list

register-Keeps : (raw : Cpu) (id : ℕ) → Keeps (λ m node. register_cpu_remote m (some raw) id node)
unfolding register_cpu_remote
register-Keeps raw id m node = refl

zone_Keeps : (f : Node → Node) → Keeps (λ m node. (m, f node))
zone_Keeps f m node = refl

module _ (raw_node : Node) (raw_cpu : Cpu) where
  new_node-single :
      (m : Machine) (id : ℕ) (fill : Machine → Node → Machine × Node)
      → Keeps fill
      → length (new_node raw_node raw_cpu m id fill).node_list ≡ 1
  unfolding new_node mm_node_init mm_node_register
  new_node-single m id fill keeps = rw (keeps _ _) refl

  put_node-length :
      (m : Machine) (i : ℕ) (fill : Machine → Node → Machine × Node) (o : Option Node)
      → Keeps fill
      → length (put_node raw_node raw_cpu m i fill o).node_list ≡ length m.node_list
  unfolding put_node
  put_node-length m i fill none keeps = refl
  put_node-length m i fill (some node) keeps =
      length-set (fill m node).0.node_list i (fill m node).1
      ∙ ap (λ (ns : List Node). length ns) (keeps m node)

  on_node-length :
      (m : Machine) (i : Option ℕ) (fill : Machine → Node → Machine × Node)
      → Keeps fill
      → length (on_node raw_node raw_cpu m i fill).node_list ≡ length m.node_list
  unfolding on_node
  on_node-length m none fill keeps = refl
  on_node-length m (some i) fill keeps = put_node-length m i fill (get_elem? m.node_list i) keeps

  add_to_domain-length :
      (s : NumaState) (domain : ℕ) (fill : Machine → Node → Machine × Node)
      → Keeps fill
      → length s.machine.node_list ≤ 1
      → length (add_to_domain raw_node raw_cpu s domain fill).machine.node_list ≤ 1
  unfolding add_to_domain
  add_to_domain-length s domain fill keeps h = elim (Bool-cases (s.node_bitmap domain == 0)) [
    | inl e ↦ rw e (omega (arith, new_node-single s.machine domain fill keeps))
    | inr e ↦
        rw e
          (omega (arith, on_node-length s.machine (mm_get_node_by_id s.machine domain) fill keeps))
  ]

  srat_step-length :
      (s : NumaState) (e : SratEntry)
      → length s.machine.node_list ≤ 1
      → length (srat_step raw_node raw_cpu s e).machine.node_list ≤ 1
  unfolding srat_step
  srat_step-length s (cpu_affinity flags domain apic_id) h =
      elim (Bool-cases (bit_and flags 1 == 0)) [
        | inl e ↦ rw e h
        | inr e ↦ rw e (
            add_to_domain-length s domain
              (λ m node. register_cpu_remote m (some raw_cpu) apic_id node)
              (register-Keeps raw_cpu apic_id) h)
      ]
  srat_step-length s (mem_affinity domain base_address size) h = elim (Bool-cases (size == 0)) [
    | inl e ↦ rw e h
    | inr e ↦
        let zone : Zone = record { start_pfn = base_address; pfn_cnt = size } in
        let fill : Node → Node = λ node. mm_zone_register node zone in
        rw e (add_to_domain-length s domain (λ m node. (m, fill node)) (zone_Keeps fill) h)
  ]
  srat_step-length s skipped h = h

  srat_loop-length :
      (es : List SratEntry) (s : NumaState)
      → length s.machine.node_list ≤ 1
      → length (srat_loop raw_node raw_cpu s es).machine.node_list ≤ 1
  unfolding srat_loop
  srat_loop-length [] s h = h
  srat_loop-length (e ∷ es) s h =
      srat_loop-length es (srat_step raw_node raw_cpu s e) (srat_step-length s e h)

  madt_step-Keeps :
      (m : Machine) (node : Node) (e : MadtEntry)
      → (madt_step raw_node raw_cpu m node e).0.node_list ≡ m.node_list
  unfolding madt_step
  madt_step-Keeps m node (processor_local_apic flags apic_id) =
      elim (Bool-cases (bit_and flags 1 == 0)) [
        | inl e ↦ rw e refl
        | inr e ↦ rw e (register-Keeps raw_cpu apic_id m node)
      ]
  madt_step-Keeps m node other_entry = refl

  madt_loop-Keeps :
      (es : List MadtEntry) (m : Machine) (node : Node)
      → (madt_loop raw_node raw_cpu m node es).0.node_list ≡ m.node_list
  unfolding madt_loop
  madt_loop-Keeps [] m node = refl
  madt_loop-Keeps (e ∷ es) m node =
      madt_loop-Keeps es (madt_step raw_node raw_cpu m node e).0
        (madt_step raw_node raw_cpu m node e).1
      ∙ madt_step-Keeps m node e

  fallback-single :
      (m : Machine) (madt : Option (List MadtEntry)) (ardc : List Ardc)
      → length (fallback raw_node raw_cpu m madt ardc).node_list ≡ 1
  unfolding fallback fallback_cpus mm_node_init mm_node_register register_cpu_remote
  fallback-single m none ardc = refl
  fallback-single m (some es) ardc = rw (madt_loop-Keeps es _ _) refl

  -- From at most one registered node `arch_numa_init` never leaves more than one, however many
  -- proximity domains the firmware's tables name.
  pub arch_numa_init_single :
      (m : Machine) (srat : Option (List SratEntry)) (madt : Option (List MadtEntry))
      (ardc : List Ardc)
      → length m.node_list ≤ 1
      → length (arch_numa_init raw_node raw_cpu m srat madt ardc).node_list ≤ 1
  unfolding arch_numa_init
  arch_numa_init_single m none madt ardc h = omega (arith, fallback-single m madt ardc)
  arch_numa_init_single m (some es) madt ardc h =
      srat_loop-length es (record { machine = m; node_bitmap = λ i. 0 }) h
