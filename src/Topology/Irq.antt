-- ===== src/Topology/Irq.antt =====
-- kernel/irq.c: interrupt vectors are taken from and given back to the bitmaps of the processors, and
-- handlers are hung on a processor's vector. Vector counts are below 2 ^ 32.
use oscar_kernel.Common.{
  ℕ, ◌+◌, ◌-◌, ◌%◌, ◌^◌, Bool, true, false, Option, none, some, List, [], ◌∷◌, ◌++◌, ltb, ◌==◌,
  if◌then◌else◌,
}
use oscar_kernel.Bitmap.{Bitmap, bitmap_allocate_bits, bitmap_allocate_bits_aligned, bitmap_clear}
use oscar_kernel.Topology.{Cpu, Node, IrqAction, cpus}
use oscar_kernel.Topology.Visit.{visit_nodes}

-- The test `ret != -1` on an allocation, with the count that follows it.
unfoldable pub take_vectors : Cpu → ℕ → Bitmap × Option ℕ → Option (Cpu × ℕ)
take_vectors c nr_irq (bm, none) = none
take_vectors c nr_irq (bm, some ret) =
    some (record c { irq_bitmap = bm; irq_nr = (c.irq_nr + nr_irq) % 2 ^ 32 }, ret)

unfoldable pub try_alloc_on : ℕ → ℕ → Cpu → Option (Cpu × ℕ)
unfolding take_vectors
try_alloc_on cpu nr_irq c =
    if c.id == cpu then take_vectors c nr_irq (bitmap_allocate_bits c.irq_bitmap nr_irq) else none

-- `none` is the -1, after which nothing has changed.
unfoldable pub alloc_irqs_cpu : List Node → ℕ → ℕ → Option (List Node × ℕ)
unfolding try_alloc_on
alloc_irqs_cpu nodes cpu nr_irq = visit_nodes (try_alloc_on cpu nr_irq) nodes

with_id : Cpu → Option (Cpu × ℕ) → Option (Cpu × (ℕ × ℕ))
with_id c none = none
with_id c (some (c', ret)) = some (c', (c.id, ret))

unfoldable pub try_alloc_aligned : ℕ → ℕ → Cpu → Option (Cpu × (ℕ × ℕ))
unfolding take_vectors with_id
try_alloc_aligned nr_irq align c =
    with_id c (take_vectors c nr_irq (bitmap_allocate_bits_aligned c.irq_bitmap nr_irq align))

-- The processor's id (the result through `cpu`) and the first vector.
unfoldable pub alloc_irqs : List Node → ℕ → ℕ → Option (List Node × (ℕ × ℕ))
unfolding try_alloc_aligned
alloc_irqs nodes nr_irq align = visit_nodes (try_alloc_aligned nr_irq align) nodes

unfoldable pub free_on : ℕ → ℕ → Cpu → Option (Cpu × Unit {0})
free_on cpu irq c =
    if c.id == cpu
    then some (
      record c {
        irq_nr = (c.irq_nr + 2 ^ 32 - 1) % 2 ^ 32;
        irq_bitmap = bitmap_clear c.irq_bitmap irq;
      },
      tt,
    )
    else none

unfoldable pub free_irq : List Node → ℕ → ℕ → Option (List Node × Unit {0})
unfolding free_on
free_irq nodes cpu irq = visit_nodes (free_on cpu irq) nodes

-- `int` comparison of two bit patterns.
abbrev int_lt : ℕ → ℕ → Bool
int_lt a b = ltb ((a + 2 ^ 31) % 2 ^ 32) ((b + 2 ^ 31) % 2 ^ 32)

-- `min_irqs` and `min_irq_cpu`, `none` while the pointer is not set.
least_irqs : List Cpu → ℕ → Option Cpu → Option Cpu
least_irqs [] min_irqs best = best
least_irqs (c ∷ cs) min_irqs best =
    let better = int_lt c.irq_nr min_irqs in
    least_irqs cs (if better then c.irq_nr else min_irqs) (if better then some c else best)

alloc_on_least : List Node → Option Cpu → Option (ℕ × Option (List Node × ℕ))
alloc_on_least nodes none = none
alloc_on_least nodes (some c) = some (c.id, alloc_irqs_cpu nodes c.id 1)

-- The id through `cpu` and the allocation; `none` where the code reads the pointer that it has not
-- set.
pub alloc_irq_from_smp : List Node → Option (ℕ × Option (List Node × ℕ))
unfolding alloc_on_least least_irqs
alloc_irq_from_smp nodes = alloc_on_least nodes (least_irqs (cpus nodes) 0xffff none)

-- The loop of `request_irq`, which prefers the last of equals.
least_irqs_last : List Cpu → ℕ → Option Cpu → Option Cpu
least_irqs_last [] min_irq best = best
least_irqs_last (c ∷ cs) min_irq best =
    let better = (if int_lt min_irq c.irq_nr then false else true) in
    least_irqs_last cs (if better then c.irq_nr else min_irq) (if better then some c else best)

add_action : ℕ → IrqAction → Cpu → Cpu
add_action irq action c = record c {
  irq_desc = λ i.
      if i == irq
      then record {
        count = (c.irq_desc irq).count + 1;
        irq_action_list = (c.irq_desc irq).irq_action_list ++ action ∷ [];
      }
      else c.irq_desc i;
}

-- `ok` says whether `kmalloc` gave memory for the action; `none` is the -1.
pub request_irq_smp : Bool → Cpu → ℕ → IrqAction → Option Cpu
unfolding add_action
request_irq_smp ok c irq action = if ok then some (add_action irq action c) else none

-- The pointer to the chosen processor is its `index`.
same_cpu : ℕ → ℕ → IrqAction → Cpu → Option (Cpu × Unit {0})
unfolding add_action
same_cpu index irq action c = if c.index == index then some (add_action irq action c, tt) else none

request_on : List Node → ℕ → IrqAction → Option Cpu → Option (List Node × Unit {0})
unfolding same_cpu
request_on nodes irq action none = none
request_on nodes irq action (some c) = visit_nodes (same_cpu c.index irq action) nodes

-- `none` is the -1, and also the case in which the pointer is never set.
pub request_irq : Bool → List Node → ℕ → IrqAction → Option (List Node × Unit {0})
unfolding request_on least_irqs_last
request_irq ok nodes irq action =
    if ok then request_on nodes irq action (least_irqs_last (cpus nodes) 0x1000 none) else none
