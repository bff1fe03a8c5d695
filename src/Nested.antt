-- ===== src/Nested.antt =====
-- The nested hypervisor of arch/x86_64/kvm/vmx/nested.c, with `vmx_run` of vmx.c: which control
-- structure (VMCS) the processor works on, and the fields that go between them. The processor's side
-- are its instructions on the current VMCS and the launch state of each. `vmcs12` is a function from
-- field encodings; which fields it has (`supported`), and what `nested_vmx_set_ctrl_state` and
-- `nested_vmx_save_host_state` write to the current VMCS (`prepared`), and which fields the processor's
-- checks at an entry accept (`passes`), are parameters.
pub mod Fields
pub mod Registers
pub mod Hardware
pub mod Entry
pub mod Launch
pub mod Copies
pub mod Exit
pub mod Tests
use oscar_kernel.Common.{
  ℕ, zero, suc, ◌+◌, ◌-◌, ◌*◌, ◌/◌, ◌%◌, ◌^◌, Bool, true, false, not, ◌&&◌, ◌||◌, List, [], ◌∷◌,
  ◌++◌, Option, none, some, Store, update, ◌==◌, ltb, leb, if◌then◌else◌,
}
use oscar_kernel.Nested.Hardware.{
  Vmcs, vmcs01, vmcs02, shadow_vmcs, same, drop, Processor, vmclear, vmptr_load, vmclear_stored,
  vmptr_load_stored, vmcs_read, write_all, vm_launch_at, vm_resume_at,
}
use oscar_kernel.Nested.Fields.{
  vmcs_16bit_ctrl_fields, vmcs_16bit_guest_state_fields, vmcs_64bit_ctrl_fields,
  vmcs_64bit_readonly_fields, vmcs_64bit_guest_state_fields, vmcs_32bit_ctrl_fields,
  vmcs_32bit_readonly_fields, vmcs_32bit_guest_state_fields, vmcs_natural_width_ctrl_fields,
  vmcs_natural_width_readonly_fields, vmcs_natural_width_guest_state_fields, sync_fields,
  host_fields,
}

abbrev pub guest_rsp : ℕ
guest_rsp = 0x681c

abbrev pub guest_rip : ℕ
guest_rip = 0x681e

abbrev pub host_rsp : ℕ
host_rsp = 0x6c14

abbrev pub host_rip : ℕ
host_rip = 0x6c16

abbrev pub vmcs_field_width : ℕ → ℕ
vmcs_field_width field = if field % 2 == 1 then 2 else field / 2 ^ 13 % 4

-- The values that a field of its width can hold.
abbrev pub field_values : ℕ → ℕ
field_values field =
    if vmcs_field_width field == 0
    then 2 ^ 16
    else if vmcs_field_width field == 2
    then 2 ^ 32
    else 2 ^ 64

-- What the code uses of `struct vmx_vcpu`, with the processor.
pub record Vcpu : Type 0 where
  pub state : ℕ
  pub guest_mode : ℕ
  pub shadow_vmcs_enabled : Bool
  pub rip : ℕ
  pub rsp : ℕ
  pub vmcs12 : Store
  pub processor : Processor

abbrev pub guest_state_fields : List ℕ
guest_state_fields =
    vmcs_16bit_guest_state_fields ++ vmcs_32bit_guest_state_fields ++ vmcs_64bit_guest_state_fields
    ++ vmcs_natural_width_guest_state_fields

-- The fields that both copies pass through in the same order, up to the last loop.
abbrev pub shared_fields : List ℕ
shared_fields =
    guest_state_fields ++ vmcs_16bit_ctrl_fields ++ vmcs_32bit_ctrl_fields ++ vmcs_64bit_ctrl_fields
    ++ vmcs_natural_width_ctrl_fields ++ vmcs_32bit_readonly_fields ++ vmcs_64bit_readonly_fields

module _ (supported : ℕ → Bool) where
  -- With the value that the caller's variable has before the call.
  abbrev pub vmcs12_read_any : Store → ℕ → ℕ → ℕ
  vmcs12_read_any vmcs12 field value =
      if supported field then vmcs12 field % field_values field else value

  abbrev pub vmcs12_write_any : Store → ℕ → ℕ → Store
  vmcs12_write_any vmcs12 field value =
      if supported field then update vmcs12 field (value % field_values field) else vmcs12

  -- The loops over field lists: the variable `value` lives on from field to field.
  unfoldable pub copy_out : List ℕ → Store → ℕ → Store → Store
  copy_out [] vmcs12 value fields = fields
  copy_out (field ∷ rest) vmcs12 value fields =
      let read = vmcs12_read_any vmcs12 field value in
      copy_out rest vmcs12 read (update fields field read)

  unfoldable pub copy_in : List ℕ → Store → Store → Store
  copy_in [] fields vmcs12 = vmcs12
  copy_in (field ∷ rest) fields vmcs12 =
      copy_in rest fields (vmcs12_write_any vmcs12 field (fields field))

  -- `value` is not initialised; `junk` is what it holds.
  unfoldable pub copy_vmcs12_to_shadow : ℕ → Vcpu → Vcpu
  copy_vmcs12_to_shadow junk v =
      let stored = v.processor.current in
      let loaded = vmptr_load shadow_vmcs (vmclear_stored stored v.processor) in
      let fields = shared_fields ++ vmcs_natural_width_readonly_fields in
      record v {
        processor = vmptr_load_stored stored (write_all (copy_out fields v.vmcs12 junk) loaded);
      }

  -- The last loop takes its fields from the list with one entry; `beyond` are the five that it reads
  -- after the end of it.
  unfoldable pub copy_shadow_to_vmcs12 : List ℕ → Vcpu → Vcpu
  copy_shadow_to_vmcs12 beyond v =
      let stored = v.processor.current in
      let cleared = vmclear shadow_vmcs (vmclear_stored stored v.processor) in
      let loaded = vmptr_load shadow_vmcs cleared in
      let fields = shared_fields ++ (vmcs_64bit_readonly_fields ++ beyond) in
      record v {
        vmcs12 = copy_in fields (vmcs_read loaded) v.vmcs12;
        processor = vmptr_load_stored stored loaded;
      }

-- An assignment to the fields of `struct vmcs12` that a list names.
unfoldable pub assign : List ℕ → Store → Store → Store
assign [] fields vmcs12 = vmcs12
assign (field ∷ rest) fields vmcs12 =
    assign rest fields (update vmcs12 field (fields field % field_values field))

unfoldable pub copy_shadow_to_vmcs12_host : Vcpu → Vcpu
copy_shadow_to_vmcs12_host v =
    let stored = v.processor.current in
    let loaded = vmptr_load shadow_vmcs (vmclear shadow_vmcs (vmclear_stored stored v.processor)) in
    record v {
      vmcs12 = assign host_fields (vmcs_read loaded) v.vmcs12;
      processor = vmptr_load_stored stored loaded;
    }

unfoldable pub sync_vmcs12 : Vcpu → Vcpu
sync_vmcs12 v = record v { vmcs12 = assign sync_fields (vmcs_read v.processor) v.vmcs12 }

unfoldable pub nested_vm_exit_reflected : ℕ → ℕ → Bool
nested_vm_exit_reflected guest_mode exit_reason =
    if (exit_reason == 1) || (exit_reason == 48)
    then false
    else if (leb 18 exit_reason && leb exit_reason 27)
        || ((exit_reason == 50) || (exit_reason == 53))
    then not (guest_mode == 0)
    else true

module _ (supported : ℕ → Bool) (prepared : Store → Store → Store) (junk : ℕ)
    (beyond : List ℕ) where
  unfoldable pub nested_vmx_set_guest_state : Store → Store → Store
  nested_vmx_set_guest_state vmcs12 fields =
      let copied = copy_out supported guest_state_fields vmcs12 junk fields in
      update (update (update copied 0x6004 (vmcs12 0x6004)) 0x6006 (vmcs12 0x6006)) 0x2014
        (vmcs12 0x2014)

  unfoldable pub prepare_vmcs02 : Vcpu → Vcpu
  prepare_vmcs02 v =
      let loaded = vmptr_load vmcs02 (vmclear vmcs01 v.processor) in
      let written : Store → Store =
        λ fields. nested_vmx_set_guest_state v.vmcs12 (prepared v.vmcs12 fields) in
      record v { state = 0; processor = write_all written loaded }

  unfoldable pub nested_vmx_run : Vcpu → Vcpu
  nested_vmx_run v =
      let read = if v.shadow_vmcs_enabled then copy_shadow_to_vmcs12 supported beyond v else v in
      let ready = prepare_vmcs02 read in
      record ready { rip = ready.vmcs12 guest_rip; rsp = ready.vmcs12 guest_rsp; guest_mode = 1 }

  -- `rip` is moved behind the instruction first, and then replaced.
  unfoldable pub vmx_handle_vmlaunch : ℕ → Vcpu → Vcpu
  vmx_handle_vmlaunch len v = nested_vmx_run (record v { rip = (v.rip + len) % 2 ^ 64 })

  unfoldable pub vmx_handle_vmresume : ℕ → Vcpu → Vcpu
  vmx_handle_vmresume len v = nested_vmx_run (record v { state = 1; rip = (v.rip + len) % 2 ^ 64 })

  -- The three 32-bit values go to `vmcs12` at their fields.
  unfoldable pub nested_vmx_vmexit : ℕ → ℕ → ℕ → Vcpu → Vcpu
  nested_vmx_vmexit exit_reason exit_intr_info exit_qualification v =
      let read = if v.shadow_vmcs_enabled then copy_shadow_to_vmcs12_host v else v in
      let synced = sync_vmcs12 read in
      let told =
        update (update (update synced.vmcs12 0x4402 exit_reason) 0x4404 exit_intr_info) 0x6400
          exit_qualification in
      let cleared = record synced { vmcs12 = told; processor = vmclear vmcs02 synced.processor } in
      let shadowed =
        if v.shadow_vmcs_enabled then copy_vmcs12_to_shadow supported junk cleared else cleared in
      let loaded = vmptr_load vmcs01 shadowed.processor in
      let fill : Store → Store =
        λ fields. update (update fields guest_rip (told host_rip)) guest_rsp (told host_rsp) in
      record shadowed {
        state = 0;
        guest_mode = 0;
        rip = told host_rip;
        rsp = told host_rsp;
        processor = write_all fill loaded;
      }

-- One entry of the loop of `vmx_run`.
abbrev pub entered_with : Vcpu → ℕ → Option Processor → Option Vcpu
entered_with v state none = none
entered_with v state (some cpu) = some (record v { state = state; processor = cpu })

unfoldable pub enter : (Store → Bool) → Vcpu → Option Vcpu
enter passes v =
    if v.state == 0
    then entered_with v 1 (vm_launch_at passes v.processor.current v.processor)
    else entered_with v v.state (vm_resume_at passes v.processor.current v.processor)
