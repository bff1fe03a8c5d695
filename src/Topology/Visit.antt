-- ===== src/Topology/Visit.antt =====
-- The nested loops of kernel/irq.c, over the nodes and the processors of each: they stop at the first
-- processor at which the body succeeds, and leave the others as they are.
use oscar_kernel.Common.{
  ◌≡◌, refl, ap, sym, ◌∙◌, Option, none, some, List, [], ◌∷◌, ◌++◌, map, All, All-append,
}
use mathlib.Core.List.{append_assoc}
use oscar_kernel.Topology.{Cpu, Node, cpus}

module _ {A : Type 0} (body : Cpu → Option (Cpu × A)) where
  keep_cpu : Cpu → Option (List Cpu × A) → Option (List Cpu × A)
  keep_cpu c none = none
  keep_cpu c (some (cs, a)) = some (c ∷ cs, a)

  visit_cpu : Cpu → List Cpu → Option (List Cpu × A) → Option (Cpu × A) → Option (List Cpu × A)
  unfolding keep_cpu
  visit_cpu c cs rest none = keep_cpu c rest
  visit_cpu c cs rest (some (c', a)) = some (c' ∷ cs, a)

  pub visit_cpus : List Cpu → Option (List Cpu × A)
  unfolding visit_cpu
  visit_cpus [] = none
  visit_cpus (c ∷ cs) = visit_cpu c cs (visit_cpus cs) (body c)

  keep_node : Node → Option (List Node × A) → Option (List Node × A)
  keep_node n none = none
  keep_node n (some (ns, a)) = some (n ∷ ns, a)

  visit_node :
      Node → List Node → Option (List Node × A) → Option (List Cpu × A) → Option (List Node × A)
  unfolding keep_node
  visit_node n ns rest none = keep_node n rest
  visit_node n ns rest (some (cs, a)) = some (record n { cpu_list = cs } ∷ ns, a)

  unfoldable pub visit_nodes : List Node → Option (List Node × A)
  unfolding visit_node visit_cpus
  visit_nodes [] = none
  visit_nodes (n ∷ ns) = visit_node n ns (visit_nodes ns) (visit_cpus n.cpu_list)

-- One processor, the first that the body accepts, is replaced by what the body makes of it; or the
-- body accepts none.
pub data Visited {A : Type 0} (body : Cpu → Option (Cpu × A)) (cs : List Cpu)
    : Option (List Cpu × A) → Type 0 where
  changed :
      (before : List Cpu) (c c' : Cpu) (after : List Cpu) (a : A)
      → cs ≡ before ++ (c ∷ after)
      → All (λ x. body x ≡ none) before
      → body c ≡ some (c', a)
      → Visited body cs (some (before ++ (c' ∷ after), a))
  refused : All (λ x. body x ≡ none) cs → Visited body cs none

module _ {A : Type 0} (body : Cpu → Option (Cpu × A)) where
  keep_cpu-Visited :
      {cs : List Cpu} {r : Option (List Cpu × A)} (c : Cpu)
      → body c ≡ none
      → Visited body cs r
      → Visited body (c ∷ cs) (keep_cpu body c r)
  unfolding keep_cpu
  keep_cpu-Visited c no_change (changed before d d' after a e skipped took) =
      changed (c ∷ before) d d' after a (ap (◌∷◌ c) e) (no_change, skipped) took
  keep_cpu-Visited c no_change (refused skipped) = refused (no_change, skipped)

  visit_cpu-Visited :
      (c : Cpu) (cs : List Cpu) (r : Option (List Cpu × A)) (o : Option (Cpu × A))
      → body c ≡ o
      → Visited body cs r
      → Visited body (c ∷ cs) (visit_cpu body c cs r o)
  unfolding visit_cpu
  visit_cpu-Visited c cs r none e v = keep_cpu-Visited c e v
  visit_cpu-Visited c cs r (some (c', a)) e v = changed [] c c' cs a refl tt e

  pub visit_cpus-Visited : (cs : List Cpu) → Visited body cs (visit_cpus body cs)
  unfolding visit_cpus
  visit_cpus-Visited [] = refused tt
  visit_cpus-Visited (c ∷ cs) =
      visit_cpu-Visited c cs (visit_cpus body cs) (body c) refl (visit_cpus-Visited cs)

abbrev pub flat : {A : Type 0} → Option (List Node × A) → Option (List Cpu × A)
flat none = none
flat (some (ns, a)) = some (cpus ns, a)

abbrev behind : {A : Type 0} → List Cpu → Option (List Cpu × A) → Option (List Cpu × A)
behind xs none = none
behind xs (some (cs, a)) = some (xs ++ cs, a)

module _ {A : Type 0} (body : Cpu → Option (Cpu × A)) where
  Visited-behind :
      {cs : List Cpu} {r : Option (List Cpu × A)} (xs : List Cpu)
      → All (λ x. body x ≡ none) xs
      → Visited body cs r
      → Visited body (xs ++ cs) (behind xs r)
  Visited-behind xs none_before (changed before c c' after a e skipped took) =
      rw (← append_assoc xs before (c' ∷ after)) (
        changed (xs ++ before) c c' after a
          (ap (◌++◌ xs) e ∙ sym (append_assoc xs before (c ∷ after)))
          (All-append (λ x. body x ≡ none) xs before none_before skipped) took)
  Visited-behind {cs} xs none_before (refused skipped) =
      refused (All-append (λ x. body x ≡ none) xs cs none_before skipped)

  flat-keep_node :
      (n : Node) (r : Option (List Node × A))
      → flat (keep_node body n r) ≡ behind n.cpu_list (flat r)
  unfolding keep_node cpus
  flat-keep_node n none = refl
  flat-keep_node n (some (ns, a)) = refl

  visit_node-Visited :
      (n : Node) (ns : List Node) (r : Option (List Node × A)) (o : Option (List Cpu × A))
      → Visited body n.cpu_list o
      → Visited body (cpus ns) (flat r)
      → Visited body (n.cpu_list ++ cpus ns) (flat (visit_node body n ns r o))
  unfolding visit_node cpus
  visit_node-Visited n ns r o (changed before c c' after a e skipped took) rest =
      rw (append_assoc before (c' ∷ after) (cpus ns)) (
        changed before c c' (after ++ cpus ns) a
          (ap (λ x. x ++ cpus ns) e ∙ append_assoc before (c ∷ after) (cpus ns)) skipped took)
  visit_node-Visited n ns r o (refused skipped) rest =
      rw (flat-keep_node n r) (Visited-behind n.cpu_list skipped rest)

  pub visit_nodes-Visited : (ns : List Node) → Visited body (cpus ns) (flat (visit_nodes body ns))
  unfolding visit_nodes cpus
  visit_nodes-Visited [] = refused tt
  visit_nodes-Visited (n ∷ ns) =
      visit_node-Visited n ns (visit_nodes body ns) (visit_cpus body n.cpu_list)
        (visit_cpus-Visited body n.cpu_list) (visit_nodes-Visited ns)

-- A node without its processors, and the nodes after a visit.
abbrev pub bare : Node → Node
bare n = record n { cpu_list = [] }

abbrev pub nodes_after : {A : Type 0} → List Node → Option (List Node × A) → List Node
nodes_after ns none = ns
nodes_after ns (some (ns', a)) = ns'

module _ {A : Type 0} (body : Cpu → Option (Cpu × A)) where
  keep_node-bare :
      (n : Node) (ns : List Node) (r : Option (List Node × A))
      → map bare (nodes_after ns r) ≡ map bare ns
      → map bare (nodes_after (n ∷ ns) (keep_node body n r)) ≡ map bare (n ∷ ns)
  unfolding keep_node
  keep_node-bare n ns none h = refl
  keep_node-bare n ns (some (ns', a)) h = ap (◌∷◌ (bare n)) h

  visit_node-bare :
      (n : Node) (ns : List Node) (r : Option (List Node × A)) (o : Option (List Cpu × A))
      → map bare (nodes_after ns r) ≡ map bare ns
      → map bare (nodes_after (n ∷ ns) (visit_node body n ns r o)) ≡ map bare (n ∷ ns)
  unfolding visit_node
  visit_node-bare n ns r none h = keep_node-bare n ns r h
  visit_node-bare n ns r (some (cs, a)) h = refl

  -- A visit leaves the nodes as they were but for their processors.
  pub visit_nodes-bare :
      (ns : List Node) → map bare (nodes_after ns (visit_nodes body ns)) ≡ map bare ns
  unfolding visit_nodes
  visit_nodes-bare [] = refl
  visit_nodes-bare (n ∷ ns) =
      visit_node-bare n ns (visit_nodes body ns) (visit_cpus body n.cpu_list) (visit_nodes-bare ns)
