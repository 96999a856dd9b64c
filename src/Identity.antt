-- ===== src/Identity.antt =====
-- The packet that announces a device: build_init_pkt of driver.c writes it, parse_init_pkt of
-- gadget.c reads it into an identity_t (types.h). Descriptors are the bytes of packed structs.
pub mod Parse
pub mod Build
pub mod Packet
pub mod Endpoints
pub mod Interfaces
pub mod Table
pub mod Written
pub mod Built
pub mod RoundTrip
use usbq_core.Prelude.{Bytes, List, byte_at, ℕ}

abbrev pub max_interface_configuration : ℕ
max_interface_configuration = 64

abbrev pub max_endpoint_interface : ℕ
max_endpoint_interface = 8

-- Descriptor types and sizes of ch9.h. A struct usb_endpoint_descriptor has nine bytes, since it
-- ends with the two audio fields.
abbrev pub usb_dt_device : ℕ
usb_dt_device = 1

abbrev pub usb_dt_config : ℕ
usb_dt_config = 2

abbrev pub usb_dt_interface : ℕ
usb_dt_interface = 4

abbrev pub usb_dt_endpoint : ℕ
usb_dt_endpoint = 5

abbrev pub usb_dt_device_size : ℕ
usb_dt_device_size = 18

abbrev pub usb_dt_config_size : ℕ
usb_dt_config_size = 9

abbrev pub usb_dt_interface_size : ℕ
usb_dt_interface_size = 9

abbrev pub usb_dt_endpoint_size : ℕ
usb_dt_endpoint_size = 7

abbrev pub sizeof_endpoint_descriptor : ℕ
sizeof_endpoint_descriptor = 9

-- Fields that all descriptors share, and bNumInterfaces, bNumEndpoints.
abbrev pub b_length : Bytes → ℕ
b_length d = byte_at d 0

abbrev pub b_descriptor_type : Bytes → ℕ
b_descriptor_type d = byte_at d 1

abbrev pub b_num_interfaces : Bytes → ℕ
b_num_interfaces d = byte_at d 4

abbrev pub b_num_endpoints : Bytes → ℕ
b_num_endpoints d = byte_at d 4

abbrev pub b_interface_number : Bytes → ℕ
b_interface_number d = byte_at d 2

abbrev pub b_alternate_setting : Bytes → ℕ
b_alternate_setting d = byte_at d 3

-- interface_desc_t
pub record InterfaceDesc : Type 0 where
  pub desc : Bytes
  pub endpoints : List Bytes
  pub active : ℕ

-- identity_t
pub record Identity : Type 0 where
  pub speed : ℕ
  pub device : Bytes
  pub conf : Bytes
  pub nb_int : ℕ
  pub interfaces : List InterfaceDesc

-- A struct usb_host_interface and a struct usb_device of the kernel, as far as they are read:
-- `interfaces` is config->interface, each with its altsettings.
pub record HostInterface : Type 0 where
  pub desc : Bytes
  pub endpoint : List Bytes

pub record Device : Type 0 where
  pub speed : ℕ
  pub descriptor : Bytes
  pub config_desc : Bytes
  pub interface : List (List HostInterface)
