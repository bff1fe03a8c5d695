-- ===== src/Nested/Fields.antt =====
-- The field lists of arch/x86_64/kvm/vmx/nested.c, with the encodings of arch/x86_64/include/vmx.h, and
-- the fields that `sync_vmcs12` and `copy_shadow_to_vmcs12_host` copy, in their order.
use oscar_kernel.Common.{ℕ, List, [], ◌∷◌}

abbrev pub vmcs_16bit_ctrl_fields : List ℕ
vmcs_16bit_ctrl_fields = 0x0 ∷ 0x2 ∷ 0x4 ∷ []

abbrev pub vmcs_16bit_guest_state_fields : List ℕ
vmcs_16bit_guest_state_fields =
    0x800 ∷ 0x802 ∷ 0x804 ∷ 0x806 ∷ 0x808 ∷ 0x80a ∷ 0x80c ∷ 0x80e ∷ 0x810 ∷ 0x812 ∷ []

abbrev pub vmcs_64bit_ctrl_fields : List ℕ
vmcs_64bit_ctrl_fields =
    0x2000 ∷ 0x2002 ∷ 0x2004 ∷ 0x2006 ∷ 0x2008 ∷ 0x200a ∷ 0x200e ∷ 0x2010 ∷ 0x2012 ∷ 0x2014 ∷ 0x2016
    ∷ 0x2018 ∷ 0x201a ∷ 0x201c ∷ 0x201e ∷ 0x2020 ∷ 0x2022 ∷ 0x2024 ∷ 0x2026 ∷ 0x2028 ∷ 0x202c
    ∷ 0x202e ∷ 0x2032 ∷ []

abbrev pub vmcs_64bit_readonly_fields : List ℕ
vmcs_64bit_readonly_fields = 0x2400 ∷ []

abbrev pub vmcs_64bit_guest_state_fields : List ℕ
vmcs_64bit_guest_state_fields =
    0x2800 ∷ 0x2802 ∷ 0x2804 ∷ 0x2806 ∷ 0x2808 ∷ 0x280a ∷ 0x280c ∷ 0x280e ∷ 0x2810 ∷ 0x2812 ∷ []

abbrev pub vmcs_32bit_ctrl_fields : List ℕ
vmcs_32bit_ctrl_fields =
    0x4000 ∷ 0x4002 ∷ 0x4004 ∷ 0x4006 ∷ 0x4008 ∷ 0x400a ∷ 0x400c ∷ 0x400e ∷ 0x4010 ∷ 0x4012 ∷ 0x4014
    ∷ 0x4016 ∷ 0x4018 ∷ 0x401a ∷ 0x401c ∷ 0x401e ∷ 0x4020 ∷ 0x4022 ∷ []

abbrev pub vmcs_32bit_readonly_fields : List ℕ
vmcs_32bit_readonly_fields =
    0x4400 ∷ 0x4402 ∷ 0x4404 ∷ 0x4406 ∷ 0x4408 ∷ 0x440a ∷ 0x440c ∷ 0x440e ∷ []

abbrev pub vmcs_32bit_guest_state_fields : List ℕ
vmcs_32bit_guest_state_fields =
    0x4800 ∷ 0x4802 ∷ 0x4804 ∷ 0x4806 ∷ 0x4808 ∷ 0x480a ∷ 0x480c ∷ 0x480e ∷ 0x4810 ∷ 0x4812 ∷ 0x4814
    ∷ 0x4816 ∷ 0x4818 ∷ 0x481a ∷ 0x481c ∷ 0x481e ∷ 0x4820 ∷ 0x4822 ∷ 0x4824 ∷ 0x4826 ∷ 0x482a
    ∷ 0x482e ∷ []

abbrev pub vmcs_natural_width_ctrl_fields : List ℕ
vmcs_natural_width_ctrl_fields =
    0x6000 ∷ 0x6002 ∷ 0x6004 ∷ 0x6006 ∷ 0x6008 ∷ 0x600a ∷ 0x600c ∷ 0x600e ∷ []

abbrev pub vmcs_natural_width_readonly_fields : List ℕ
vmcs_natural_width_readonly_fields = 0x6400 ∷ 0x6402 ∷ 0x6404 ∷ 0x6406 ∷ 0x6408 ∷ 0x640a ∷ []

abbrev pub vmcs_natural_width_guest_state_fields : List ℕ
vmcs_natural_width_guest_state_fields =
    0x6800 ∷ 0x6802 ∷ 0x6804 ∷ 0x6806 ∷ 0x6808 ∷ 0x680a ∷ 0x680c ∷ 0x680e ∷ 0x6810 ∷ 0x6812 ∷ 0x6814
    ∷ 0x6816 ∷ 0x6818 ∷ 0x681a ∷ 0x681c ∷ 0x681e ∷ 0x6820 ∷ 0x6822 ∷ 0x6824 ∷ 0x6826 ∷ []

abbrev pub sync_fields : List ℕ
sync_fields =
    0x6820 ∷ 0x681e ∷ 0x681c ∷ 0x800 ∷ 0x802 ∷ 0x804 ∷ 0x806 ∷ 0x808 ∷ 0x80a ∷ 0x80c ∷ 0x80e
    ∷ 0x4800 ∷ 0x4802 ∷ 0x4804 ∷ 0x4806 ∷ 0x4808 ∷ 0x480a ∷ 0x480c ∷ 0x480e ∷ 0x4810 ∷ 0x4812
    ∷ 0x4814 ∷ 0x4816 ∷ 0x4818 ∷ 0x481a ∷ 0x481c ∷ 0x481e ∷ 0x4820 ∷ 0x4822 ∷ 0x6806 ∷ 0x6808
    ∷ 0x680a ∷ 0x680c ∷ 0x680e ∷ 0x6810 ∷ 0x6812 ∷ 0x6814 ∷ 0x6816 ∷ 0x6818 ∷ 0x4824 ∷ 0x6822
    ∷ 0x6800 ∷ 0x6802 ∷ 0x6804 ∷ 0x6004 ∷ 0x6006 ∷ 0x4402 ∷ 0x6400 ∷ 0x4404 ∷ 0x2806 ∷ 0x440c
    ∷ 0x4406 ∷ 0x2400 ∷ 0x640a ∷ 0x440e ∷ []

abbrev pub host_fields : List ℕ
host_fields = 0x6c16 ∷ 0x6c14 ∷ 0x6c00 ∷ 0x6c02 ∷ 0x6c04 ∷ 0x6c0c ∷ 0x6c0e ∷ []
