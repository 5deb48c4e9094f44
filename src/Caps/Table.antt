-- ===== src/Caps/Table.antt =====
-- The table `caps` of devcaps.c.
use mlx5ctl.Base.{ℕ, String, Option, none, some, List, [], ◌∷◌}
use mlx5ctl.Caps.Shown.{Printcap}
use mlx5ctl.Caps.Print.{
  print_hca_caps, print_hca_caps2, print_eth_caps, print_virtio_emulation_cap, print_roce_cap,
  print_debug_caps, print_port_selection_caps,
}
use mlx5ctl.Caps.Types.{
  cap_general, cap_ethernet_offloads, cap_roce, cap_general_2, cap_port_selection,
  cap_adv_virtualization, cap_debug, cap_odp, cap_atomic, cap_ipoib_offloads,
  cap_ipoib_enhanced_offloads, cap_flow_table, cap_eswitch_flow_table, cap_eswitch, cap_qos,
  cap_dev_mem, cap_tls, cap_vdpa_emulation, cap_dev_event, cap_ipsec, cap_crypto, cap_macsec,
}

pub record CapInfo : Type 0 where
  pub type : ℕ
  pub name : String
  pub print : Option Printcap

-- DEFINE_CAP and DEFINE_CAP_PRINT.
abbrev cap : ℕ → String → Option Printcap → CapInfo
cap type name print = record { type = type; name = name; print = print }

unfoldable pub caps : List CapInfo
caps =
    cap cap_general "GENERAL" (some print_hca_caps)
    ∷ cap cap_ethernet_offloads "ETHERNET_OFFLOADS" (some print_eth_caps)
    ∷ cap cap_roce "ROCE" (some print_roce_cap)
    ∷ cap cap_general_2 "GENERAL_2" (some print_hca_caps2)
    ∷ cap cap_port_selection "PORT_SELECTION" (some print_port_selection_caps)
    ∷ cap cap_adv_virtualization "ADV_VIRTUALIZATION" (some print_virtio_emulation_cap)
    ∷ cap cap_debug "DEBUG" (some print_debug_caps)
    ∷ cap cap_odp "ODP" none
    ∷ cap cap_atomic "ATOMIC" none
    ∷ cap cap_ipoib_offloads "IPOIB_OFFLOADS" none
    ∷ cap cap_ipoib_enhanced_offloads "IPOIB_ENHANCED_OFFLOADS" none
    ∷ cap cap_flow_table "FLOW_TABLE" none
    ∷ cap cap_eswitch_flow_table "ESWITCH_FLOW_TABLE" none
    ∷ cap cap_eswitch "ESWITCH" none
    ∷ cap cap_qos "QOS" none
    ∷ cap cap_dev_mem "DEV_MEM" none
    ∷ cap cap_tls "TLS" none
    ∷ cap cap_vdpa_emulation "VDPA_EMULATION" none
    ∷ cap cap_dev_event "DEV_EVENT" none
    ∷ cap cap_ipsec "IPSEC" none
    ∷ cap cap_crypto "CRYPTO" none
    ∷ cap cap_macsec "MACSEC" none
    ∷ []
