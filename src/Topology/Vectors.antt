-- ===== src/Topology/Vectors.antt =====
-- The vectors that kernel/irq.c hands out and takes back.
use oscar_kernel.Common.{
  ℕ, ◌+◌, ◌-◌, ◌%◌, ◌^◌, ◌<◌, ◌≡◌, refl, subst, ◌||◌, Option, none, some, List, ◌∷◌, ◌++◌, map,
  ◌==◌, ==_iff, arith, Bool-cases, inl, inr, All, All-map,
}
use oscar_kernel.Bitmap.{Bitmap, bitmap_get, bitmap_clear, bitmap_allocate_bits}
use oscar_kernel.Bitmap.Get.{within, bitmap_get-clear}
use oscar_kernel.Bitmap.Region.{IsFree}
use oscar_kernel.Bitmap.Allocate.{Allocates, taken, bitmap_allocate_bits-Allocates}
use oscar_kernel.Topology.{Cpu, Node, cpus}
use oscar_kernel.Topology.Visit.{
  Visited, changed, flat, bare, nodes_after, visit_nodes-Visited, visit_nodes-bare,
}
use oscar_kernel.Topology.Irq.{take_vectors, try_alloc_on, alloc_irqs_cpu, free_on}

-- The processor with vectors `b` up to `b + nr` taken: they were free, no lower run was, nothing else of
-- the bitmap has changed, they are counted, and all else of the processor is as it was.
pub record HasTaken (c : Cpu) (nr : ℕ) (c' : Cpu) (b : ℕ) : Type 0 where
  pub were_free : IsFree c.irq_bitmap nr b
  pub first : (k : ℕ) → k < b → ¬ IsFree c.irq_bitmap nr k
  pub now :
      (i : ℕ) → bitmap_get c'.irq_bitmap i ≡ (within b (b + nr) i || bitmap_get c.irq_bitmap i)
  pub counted : c'.irq_nr ≡ (c.irq_nr + nr) % 2 ^ 32
  pub same_id : c'.id ≡ c.id
  pub kept : c' ≡ record c { irq_bitmap = c'.irq_bitmap; irq_nr = c'.irq_nr }

pub data Tried (cpu nr : ℕ) (c : Cpu) : Option (Cpu × ℕ) → Type 0 where
  took : (c' : Cpu) (b : ℕ) → c.id ≡ cpu → HasTaken c nr c' b → Tried cpu nr c (some (c', b))
  failed : (c.id ≡ cpu → (k : ℕ) → ¬ IsFree c.irq_bitmap nr k) → Tried cpu nr c none

take_vectors-Tried :
    (cpu nr : ℕ) (c : Cpu) (r : Bitmap × Option ℕ)
    → c.id ≡ cpu
    → Allocates c.irq_bitmap nr r
    → Tried cpu nr c (take_vectors c nr r)
unfolding take_vectors
take_vectors-Tried cpu nr c r e (taken i bm free first sets size) = took _ i e (record {
  were_free = free;
  first = first;
  now = sets;
  counted = refl;
  same_id = refl;
  kept = refl;
})
take_vectors-Tried cpu nr c r e (Allocates.refused none_free) = failed (λ _. none_free)

try_alloc_on-Tried : (cpu nr : ℕ) (c : Cpu) → 0 < nr → Tried cpu nr c (try_alloc_on cpu nr c)
unfolding try_alloc_on
try_alloc_on-Tried cpu nr c pos = elim (Bool-cases (c.id == cpu)) [
  | inl same ↦ rw same (
      take_vectors-Tried cpu nr c (bitmap_allocate_bits c.irq_bitmap nr) ((==_iff _ _).0 same)
        (bitmap_allocate_bits-Allocates c.irq_bitmap nr pos))
  | inr other ↦ rw other (failed (λ e. cc (other, (==_iff _ _).1 e)))
]

Tried-some :
    {cpu nr b : ℕ} {c c' : Cpu} → Tried cpu nr c (some (c', b)) → (c.id ≡ cpu) × HasTaken c nr c' b
Tried-some (took c' b e h) = (e, h)

Tried-none :
    {cpu nr : ℕ} {c : Cpu} → Tried cpu nr c none → c.id ≡ cpu → (k : ℕ) → ¬ IsFree c.irq_bitmap nr k
Tried-none (failed h) = h

-- What `alloc_irqs_cpu` promises of all processors, in the order of the lists.
pub data Granted (cpu nr : ℕ) (cs : List Cpu) : Option (List Cpu × ℕ) → Type 0 where
  granted :
      (before : List Cpu) (c c' : Cpu) (after : List Cpu) (b : ℕ)
      → cs ≡ before ++ (c ∷ after)
      → c.id ≡ cpu
      → HasTaken c nr c' b
      → Granted cpu nr cs (some (before ++ (c' ∷ after), b))
  exhausted :
      All (λ c. c.id ≡ cpu → (k : ℕ) → ¬ IsFree c.irq_bitmap nr k) cs → Granted cpu nr cs none

Granted-of_Visited :
    {cpu nr : ℕ} {cs : List Cpu} {r : Option (List Cpu × ℕ)}
    → 0 < nr
    → Visited (try_alloc_on cpu nr) cs r
    → Granted cpu nr cs r
Granted-of_Visited {cpu} {nr} pos (changed before c c' after b e skipped run) =
    let (same, h) = Tried-some (subst (Tried cpu nr c) run (try_alloc_on-Tried cpu nr c pos)) in
    granted before c c' after b e same h
Granted-of_Visited {cpu} {nr} {cs} pos (Visited.refused skipped) = exhausted (
    All-map (λ c e. Tried-none (subst (Tried cpu nr c) e (try_alloc_on-Tried cpu nr c pos))) cs
      skipped)

-- For at least one vector, `alloc_irqs_cpu` takes the first free run of vectors of one processor
-- with the given id, counts them, and changes nothing else of this processor, no other processor, and
-- nothing of the nodes but their lists of processors; it returns -1 only if no processor with that id
-- has such a run.
pub alloc_irqs_cpu-Granted :
    (nodes : List Node) (cpu nr : ℕ)
    → 0 < nr
    → Granted cpu nr (cpus nodes) (flat (alloc_irqs_cpu nodes cpu nr))
      × (map bare (nodes_after nodes (alloc_irqs_cpu nodes cpu nr)) ≡ map bare nodes)
unfolding alloc_irqs_cpu
alloc_irqs_cpu-Granted nodes cpu nr pos = (
  Granted-of_Visited pos (visit_nodes-Visited (try_alloc_on cpu nr) nodes),
  visit_nodes-bare (try_alloc_on cpu nr) nodes,
)

-- On one processor whose count of vectors is a 32-bit pattern, giving back a vector that was just
-- taken restores every bit of the bitmap and the count of vectors in use.
pub free_on-try_alloc_on :
    (c c' : Cpu) (irq : ℕ)
    → c.irq_nr < 2 ^ 32
    → try_alloc_on c.id 1 c ≡ some (c', irq)
    → (c'' : Cpu) × (free_on c.id irq c' ≡ some (c'', tt))
      × (c''.irq_nr ≡ c.irq_nr)
      × ((i : ℕ) → bitmap_get c''.irq_bitmap i ≡ bitmap_get c.irq_bitmap i)
unfolding free_on
free_on-try_alloc_on c c' irq small e =
    let (same, h) =
      Tried-some (subst (Tried c.id 1 c) e (try_alloc_on-Tried c.id 1 c (omega arith))) in
    (
      record c' {
        irq_nr = (c'.irq_nr + 2 ^ 32 - 1) % 2 ^ 32;
        irq_bitmap = bitmap_clear c'.irq_bitmap irq;
      },
      rw ((==_iff _ _).1 h.same_id),
      omega (arith, h.counted),
      λ i. ground (
        arith,
        bitmap_get-clear c'.irq_bitmap irq i,
        h.now i,
        h.were_free.free irq (omega arith) (omega arith),
      ),
    )
