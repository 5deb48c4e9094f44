-- ===== src/Caps/Types.antt =====
-- `enum mlx5_cap_type` and `enum mlx5_cap_mode` of devcaps.c.
use mlx5ctl.Base.{ℕ}

abbrev pub cap_general : ℕ
cap_general = 0x0

abbrev pub cap_ethernet_offloads : ℕ
cap_ethernet_offloads = 0x1

abbrev pub cap_odp : ℕ
cap_odp = 0x2

abbrev pub cap_atomic : ℕ
cap_atomic = 0x3

abbrev pub cap_roce : ℕ
cap_roce = 0x4

abbrev pub cap_ipoib_offloads : ℕ
cap_ipoib_offloads = 0x5

abbrev pub cap_ipoib_enhanced_offloads : ℕ
cap_ipoib_enhanced_offloads = 0x6

abbrev pub cap_flow_table : ℕ
cap_flow_table = 0x7

abbrev pub cap_eswitch_flow_table : ℕ
cap_eswitch_flow_table = 0x8

abbrev pub cap_eswitch : ℕ
cap_eswitch = 0x9

abbrev pub cap_qos : ℕ
cap_qos = 0xc

abbrev pub cap_debug : ℕ
cap_debug = 0xd

abbrev pub cap_reserved_14 : ℕ
cap_reserved_14 = 0xe

abbrev pub cap_dev_mem : ℕ
cap_dev_mem = 0xf

abbrev pub cap_reserved_16 : ℕ
cap_reserved_16 = 0x10

abbrev pub cap_tls : ℕ
cap_tls = 0x11

abbrev pub cap_vdpa_emulation : ℕ
cap_vdpa_emulation = 0x13

abbrev pub cap_dev_event : ℕ
cap_dev_event = 0x14

abbrev pub cap_ipsec : ℕ
cap_ipsec = 0x15

abbrev pub cap_crypto : ℕ
cap_crypto = 0x1a

abbrev pub cap_macsec : ℕ
cap_macsec = 0x1f

abbrev pub cap_general_2 : ℕ
cap_general_2 = 0x20

abbrev pub cap_port_selection : ℕ
cap_port_selection = 0x25

abbrev pub cap_adv_virtualization : ℕ
cap_adv_virtualization = 0x26

abbrev pub cap_num : ℕ
cap_num = 0x27

abbrev pub hca_cap_opmod_get_max : ℕ
hca_cap_opmod_get_max = 0

abbrev pub hca_cap_opmod_get_cur : ℕ
hca_cap_opmod_get_cur = 1
