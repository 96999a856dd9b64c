-- ===== src/Identity/Build.antt =====
-- build_init_pkt of driver.c.
use usbq_core.Msg.{new_device, msgcpy, alloc_msg_management, set_management_type, Msg, Kmalloc}
use usbq_core.Identity.{
  usb_dt_config_size, usb_dt_endpoint_size, usb_dt_device_size, b_num_interfaces,
  usb_dt_interface_size, b_num_endpoints, b_length, Device, HostInterface,
}
use usbq_core.Prelude.{
  Bytes, List, Option, [], le32, load, none, some, take, word, ℕ, ◌%◌, ◌*◌, ◌+◌, ◌>>=◌, ◌∷◌,
}

-- The interfaces and the endpoints that the loops visit.
abbrev pub visited : Device → List (List HostInterface)
visited dev = take (b_num_interfaces dev.config_desc) dev.interface

-- Compute total size of packet
unfoldable pub altsettings_size : List HostInterface → ℕ
altsettings_size [] = 0
altsettings_size (alt ∷ alts) =
    usb_dt_interface_size + b_num_endpoints alt.desc * usb_dt_endpoint_size + altsettings_size alts

unfoldable pub interfaces_size : List (List HostInterface) → ℕ
interfaces_size [] = 0
interfaces_size (intf ∷ rest) = altsettings_size intf + interfaces_size rest

unfoldable pub packet_size : Device → ℕ
packet_size dev =
    (4 + usb_dt_device_size + usb_dt_config_size + interfaces_size (visited dev)) % word

-- msgcpy(msg, desc, desc->bLength): the read is from a struct of the given bytes.
unfoldable pub copy_desc : Msg → Bytes → Option Msg
copy_desc msg desc = do bytes ← load desc 0 (b_length desc); msgcpy msg bytes

unfoldable pub copy_endpoints : Msg → List Bytes → Option Msg
copy_endpoints msg [] = some msg
copy_endpoints msg (e ∷ es) = do msg' ← copy_desc msg e; copy_endpoints msg' es

unfoldable pub copy_altsettings : Msg → List HostInterface → Option Msg
copy_altsettings msg [] = some msg
copy_altsettings msg (alt ∷ alts) = do
  msg' ← copy_desc msg alt.desc
  msg'' ← copy_endpoints msg' (take (b_num_endpoints alt.desc) alt.endpoint)
  copy_altsettings msg'' alts

unfoldable pub copy_interfaces : Msg → List (List HostInterface) → Option Msg
copy_interfaces msg [] = some msg
copy_interfaces msg (intf ∷ rest) = do msg' ← copy_altsettings msg intf; copy_interfaces msg' rest

unfoldable pub fill_packet : Device → Msg → Option Msg
fill_packet dev msg = do
  msg ← set_management_type msg new_device
  msg ← msgcpy msg (le32 dev.speed)
  msg ← msgcpy msg dev.descriptor
  msg ← msgcpy msg dev.config_desc
  copy_interfaces msg (visited dev)

unfoldable pub build_init_pkt : Kmalloc → Device → Option (Option Msg)
build_init_pkt kmalloc dev =
    alloc_msg_management kmalloc (packet_size dev)
    >>= elim [ none ↦ some none | some msg ↦ fill_packet dev msg >>= λ msg'. some (some msg') ]
