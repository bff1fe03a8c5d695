-- ===== src/Mmu/Walk.antt =====
-- The walks of arch/x86_64/kvm/vmx/mmu.c against the description of a four-level walk.
use oscar_kernel.Common.{
  ℕ, zero, suc, ◌+◌, ◌*◌, ◌/◌, ◌%◌, ◌^◌, ◌<◌, ◌≡◌, ◌≢◌, ◌⊎◌, refl, sym, ap, subst, ◌∙◌, Bool, ◌&&◌,
  Option, none, some, Store, ◌==◌, ==_ne, ltb, arith, inl, inr, Bool-cases, Option-cases,
}
use mathlib.Core.Option.{map, none-ne-some, some-injective}
use oscar_kernel.Common.Bits.{digit}
use oscar_kernel.Common.Masks.{bit_and-frame}
use oscar_kernel.Bootmem.{phys_to_virt}
use oscar_kernel.Mmu.{
  Vcpu, Vmcs12, pt_entry_addr, pg_present, ept_present, ept_gpa_to_hpa, paging64_gva_to_gpa,
  nested_ept_l2gpa_to_l1gpa,
}
use oscar_kernel.Mmu.Leaf.{
  Leaf, find_leaf, follow, leaf_address, code_address, pml4_level-find_leaf,
}

-- The page sizes that a walk can end with.
data IsPageSize : Option Leaf → Type 0 where
  fault : IsPageSize none
  page :
      (s p e : ℕ)
      → (s ≡ 12) ⊎ ((s ≡ 21) ⊎ (s ≡ 30))
      → IsPageSize (some (record { size = s; parent = p; entry = e }))

follow-IsPageSize :
    (o : Option ℕ) (f : ℕ → Option Leaf) → ((a : ℕ) → IsPageSize (f a)) → IsPageSize (follow o f)
unfolding follow
follow-IsPageSize none f h = fault
follow-IsPageSize (some a) f h = h a

module _ (mem : Store) (present : ℕ → Bool) (locate : ℕ → Option ℕ) (addr : ℕ) where
  find_leaf-IsPageSize :
      (level parent table : ℕ) → IsPageSize (find_leaf mem present locate addr level parent table)
  unfolding find_leaf
  find_leaf-IsPageSize zero parent table =
      let e = mem ((table + 8 * (addr / 2 ^ 12 % 512)) % 2 ^ 64) in
      elim (Bool-cases (present e)) [ inl p ↦ rw p (page _ _ _ (inl refl)) | inr p ↦ rw p fault ]
  find_leaf-IsPageSize (suc level) parent table =
      let e = mem ((table + 8 * (addr / 2 ^ (21 + 9 * level) % 512)) % 2 ^ 64) in
      elim (Bool-cases (present e)) [
        | inl p ↦ rw p (elim (Bool-cases (ltb level 2 && (digit 7 e == 1))) [
          | inl l ↦ rw l (page _ _ _ (ground arith))
          | inr l ↦ rw l (
              follow-IsPageSize (locate (e / 2 ^ 12 * 2 ^ 12)) _
                (λ a. find_leaf-IsPageSize level e (phys_to_virt a)))
        ])
        | inr p ↦ rw p fault
      ]

-- A sum of whole frames and an offset, for a page of each size.
sum_offset :
    (s f addr : ℕ)
    → (s ≡ 12) ⊎ ((s ≡ 21) ⊎ (s ≡ 30))
    → (f * 2 ^ s + addr % 2 ^ s) % 2 ^ 12 ≡ addr % 2 ^ 12
sum_offset s f addr (inl q) = rw q (omega arith)
sum_offset s f addr (inr (inl q)) = rw q (omega arith)
sum_offset s f addr (inr (inr q)) = rw q (omega arith)

page_offset :
    (addr hpa : ℕ) (o : Option Leaf)
    → IsPageSize o
    → map (code_address addr) o ≡ some hpa
    → hpa % 2 ^ 12 ≡ addr % 2 ^ 12
unfolding code_address
page_offset addr hpa _ fault r = absurd (none-ne-some hpa r)
page_offset addr hpa _ (page s p e q) r =
    ap (λ (t : ℕ). t % 2 ^ 12) (sym (some-injective _ _ r)) ∙ sum_offset s _ addr q

correct_address :
    (addr : ℕ) (o : Option Leaf)
    → ((leaf : Leaf) → o ≡ some leaf → leaf.size ≢ 21)
    → ((leaf : Leaf) → o ≡ some leaf → leaf.entry < 2 ^ 52)
    → map (code_address addr) o ≡ map (leaf_address addr) o
unfolding code_address leaf_address
correct_address addr none h low = refl
correct_address addr (some leaf) h low =
    let bits : leaf.entry % 2 ^ 52 ≡ leaf.entry = omega (arith, low leaf refl) in
    rw (==_ne leaf.size 21 (h leaf refl)) (rw bits refl)

pub page_base : (e : ℕ) → e < 2 ^ 64 → pt_entry_addr e ≡ e / 2 ^ 12 * 2 ^ 12
page_base e h = bit_and-frame 12 52 e (omega arith)

-- A walk that ends with an entry below 2 ^ 52, or with none.
data HasLowEntry : Option Leaf → Type 0 where
  absent : HasLowEntry none
  entry_low :
      (s p e : ℕ) → e < 2 ^ 52 → HasLowEntry (some (record { size = s; parent = p; entry = e }))

follow-HasLowEntry :
    (o : Option ℕ) (f : ℕ → Option Leaf) → ((a : ℕ) → HasLowEntry (f a)) → HasLowEntry (follow o f)
unfolding follow
follow-HasLowEntry none f h = absent
follow-HasLowEntry (some a) f h = h a

low_entry : (o : Option Leaf) (leaf : Leaf) → HasLowEntry o → o ≡ some leaf → leaf.entry < 2 ^ 52
low_entry _ leaf absent r = absurd (none-ne-some leaf r)
low_entry _ leaf (entry_low s p e h) r =
    subst (λ (l : Leaf). l.entry < 2 ^ 52) (some-injective _ leaf r) h

module _ (mem : Store) (present : ℕ → Bool) (locate : ℕ → Option ℕ) (addr : ℕ)
    (low : (a : ℕ) → mem a < 2 ^ 52) where
  find_leaf-HasLowEntry :
      (level parent table : ℕ) → HasLowEntry (find_leaf mem present locate addr level parent table)
  unfolding find_leaf
  find_leaf-HasLowEntry zero parent table =
      let e = mem ((table + 8 * (addr / 2 ^ 12 % 512)) % 2 ^ 64) in
      elim (Bool-cases (present e)) [ inl p ↦ rw p (entry_low _ _ _ (low _)) | inr p ↦ rw p absent ]
  find_leaf-HasLowEntry (suc level) parent table =
      let e = mem ((table + 8 * (addr / 2 ^ (21 + 9 * level) % 512)) % 2 ^ 64) in
      elim (Bool-cases (present e)) [
        | inl p ↦ rw p (elim (Bool-cases (ltb level 2 && (digit 7 e == 1))) [
          | inl l ↦ rw l (entry_low _ _ _ (low _))
          | inr l ↦ rw l (
              follow-HasLowEntry (locate (e / 2 ^ 12 * 2 ^ 12)) _
                (λ a. find_leaf-HasLowEntry level e (phys_to_virt a)))
        ])
        | inr p ↦ rw p absent
      ]

module _ (mem : Store) (words : (a : ℕ) → mem a < 2 ^ 64) where
  -- On memory of 64-bit words `ept_gpa_to_hpa` follows the four levels from the vcpu's top table with
  -- 512 entries each and forms the address from the leaf, the frame of a 2 MB page out of the entry
  -- above; where an entry is absent it fails.
  pub ept_gpa_to_hpa-find_leaf :
      (vcpu : Vcpu) (gpa : ℕ)
      → ept_gpa_to_hpa mem vcpu gpa
        ≡ map (code_address gpa) (find_leaf mem ept_present some gpa 3 0 vcpu.eptp_base)
  unfolding ept_gpa_to_hpa
  ept_gpa_to_hpa-find_leaf vcpu gpa =
      pml4_level-find_leaf mem ept_present some gpa words vcpu.eptp_base

  -- On memory of 64-bit words, an address that `ept_gpa_to_hpa` gives has the guest's offset in its
  -- 4 KB page.
  pub ept_gpa_to_hpa_offset :
      (vcpu : Vcpu) (gpa hpa : ℕ)
      → ept_gpa_to_hpa mem vcpu gpa ≡ some hpa
      → hpa % 2 ^ 12 ≡ gpa % 2 ^ 12
  ept_gpa_to_hpa_offset vcpu gpa hpa r =
      page_offset gpa hpa (find_leaf mem ept_present some gpa 3 0 vcpu.eptp_base)
        (find_leaf-IsPageSize mem ept_present some gpa 3 0 vcpu.eptp_base)
        (sym (ept_gpa_to_hpa-find_leaf vcpu gpa) ∙ r)

  -- On memory of 64-bit words and for a 64-bit cr3, `paging64_gva_to_gpa` follows the guest's four
  -- levels from cr3, each table found by `ept_gpa_to_hpa`, and forms the address from the leaf, the
  -- frame of a 2 MB page out of the entry above; where an entry is absent or a table has no
  -- translation it fails.
  pub paging64_gva_to_gpa-find_leaf :
      (vcpu : Vcpu) (gva : ℕ)
      → vcpu.cr3 < 2 ^ 64
      → paging64_gva_to_gpa mem vcpu gva
        ≡ map (code_address gva) (
            follow (ept_gpa_to_hpa mem vcpu (vcpu.cr3 / 2 ^ 12 * 2 ^ 12)) (λ hpa.
              find_leaf mem pg_present (ept_gpa_to_hpa mem vcpu) gva 3 0 (phys_to_virt hpa)))
  unfolding paging64_gva_to_gpa follow
  paging64_gva_to_gpa-find_leaf vcpu gva small =
      rw (page_base vcpu.cr3 small)
        (elim (Option-cases (ept_gpa_to_hpa mem vcpu (vcpu.cr3 / 2 ^ 12 * 2 ^ 12))) [
          | inl q ↦ rw q refl
          | inr (hpa, q) ↦ rw q (
              pml4_level-find_leaf mem pg_present (ept_gpa_to_hpa mem vcpu) gva words
                (phys_to_virt hpa))
        ])

  -- On memory of 64-bit words and for a 64-bit EPT pointer, `nested_ept_l2gpa_to_l1gpa` follows the
  -- four levels of the nested hypervisor's extended tables from that pointer, each table found by
  -- `ept_gpa_to_hpa`, and forms the address from the leaf, the frame of a 2 MB page out of the
  -- entry above; where an entry is absent or a table has no translation it fails.
  pub nested_ept-find_leaf :
      (vcpu : Vcpu) (vmcs12 : Vmcs12) (l2gpa : ℕ)
      → vmcs12.ept_pointer < 2 ^ 64
      → nested_ept_l2gpa_to_l1gpa mem vcpu vmcs12 l2gpa
        ≡ map (code_address l2gpa) (
            follow (ept_gpa_to_hpa mem vcpu (vmcs12.ept_pointer / 2 ^ 12 * 2 ^ 12)) (λ hpa.
              find_leaf mem ept_present (ept_gpa_to_hpa mem vcpu) l2gpa 3 0 (phys_to_virt hpa)))
  unfolding nested_ept_l2gpa_to_l1gpa follow
  nested_ept-find_leaf vcpu vmcs12 l2gpa small =
      rw (page_base vmcs12.ept_pointer small)
        (elim (Option-cases (ept_gpa_to_hpa mem vcpu (vmcs12.ept_pointer / 2 ^ 12 * 2 ^ 12))) [
          | inl q ↦ rw q refl
          | inr (hpa, q) ↦ rw q (
              pml4_level-find_leaf mem ept_present (ept_gpa_to_hpa mem vcpu) l2gpa words
                (phys_to_virt hpa))
        ])

  -- On memory of 64-bit words, an address that `nested_ept_l2gpa_to_l1gpa` gives has the nested guest's
  -- offset in its 4 KB page.
  pub nested_ept_offset :
      (vcpu : Vcpu) (vmcs12 : Vmcs12) (l2gpa l1gpa : ℕ)
      → vmcs12.ept_pointer < 2 ^ 64
      → nested_ept_l2gpa_to_l1gpa mem vcpu vmcs12 l2gpa ≡ some l1gpa
      → l1gpa % 2 ^ 12 ≡ l2gpa % 2 ^ 12
  nested_ept_offset vcpu vmcs12 l2gpa l1gpa small r =
      page_offset l2gpa l1gpa _
        (follow-IsPageSize (ept_gpa_to_hpa mem vcpu (vmcs12.ept_pointer / 2 ^ 12 * 2 ^ 12)) _
          (λ hpa.
            find_leaf-IsPageSize mem ept_present (ept_gpa_to_hpa mem vcpu) l2gpa 3 0
              (phys_to_virt hpa)))
        (sym (nested_ept-find_leaf vcpu vmcs12 l2gpa small) ∙ r)

module _ (mem : Store) (low : (a : ℕ) → mem a < 2 ^ 52) where
  -- On tables whose words are below 2 ^ 52, where the leaf is no 2 MB page, `ept_gpa_to_hpa` gives the
  -- address that the processor forms: the frame in the leaf and the offset of the guest's address.
  pub ept_gpa_to_hpa_correct :
      (vcpu : Vcpu) (gpa : ℕ)
      → ((leaf : Leaf)
          → find_leaf mem ept_present some gpa 3 0 vcpu.eptp_base ≡ some leaf
          → leaf.size ≢ 21)
      → ept_gpa_to_hpa mem vcpu gpa
        ≡ map (leaf_address gpa) (find_leaf mem ept_present some gpa 3 0 vcpu.eptp_base)
  ept_gpa_to_hpa_correct vcpu gpa small =
      let words : (a : ℕ) → mem a < 2 ^ 64 = λ a. omega (arith, low a) in
      ept_gpa_to_hpa-find_leaf mem words vcpu gpa
      ∙ correct_address gpa (find_leaf mem ept_present some gpa 3 0 vcpu.eptp_base) small
          (λ leaf found.
            low_entry (find_leaf mem ept_present some gpa 3 0 vcpu.eptp_base) leaf
              (find_leaf-HasLowEntry mem ept_present some gpa low 3 0 vcpu.eptp_base) found)
