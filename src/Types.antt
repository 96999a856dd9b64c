-- ===== src/Types.antt =====
-- types.h and the conversion macros of common.h: endpoint identities, and the fields of the USB
-- descriptors that the code reads. A descriptor is kept as the bytes of its packed struct.
use usbq_core.Prelude.{Bool, Bytes, byte_at, if◌then◌else◌, read16, ℕ, ◌%◌, ◌&&◌, ◌*◌, ◌/◌, ◌==◌}

-- eptype_t
abbrev pub ctrl : ℕ
ctrl = 0

abbrev pub isoc : ℕ
isoc = 1

abbrev pub bulk : ℕ
bulk = 2

abbrev pub interrupt : ℕ
interrupt = 3

abbrev pub unknown : ℕ
unknown = 0x80

-- epdir_t
abbrev pub dir_in : ℕ
dir_in = 0

abbrev pub dir_out : ℕ
dir_out = 1

-- epid_t. The fields are numbers, since a message from the network may hold any.
pub record Epid : Type 0 where
  pub num : ℕ
  pub type : ℕ
  pub dir : ℕ

-- EP_TYPE_FROM_KERNEL
unfoldable pub ep_type_from_kernel : ℕ → ℕ
ep_type_from_kernel t =
    if t == 3
    then interrupt
    else if t == 0
    then ctrl
    else if t == 1
    then isoc
    else if t == 2
    then bulk
    else unknown

-- EP_DIR_FROM_KERNEL, where USB_DIR_IN is 0x80
unfoldable pub ep_dir_from_kernel : ℕ → ℕ
ep_dir_from_kernel d = if d == 0x80 then dir_in else dir_out

-- IS_OUT, IS_IN, IS_CTRL, IS_INTERRUPT, IS_BULK, IS_ISOCHRONOUS
abbrev pub is_out : Epid → Bool
is_out e = e.dir == dir_out

abbrev pub is_in : Epid → Bool
is_in e = e.dir == dir_in

abbrev pub is_ctrl : Epid → Bool
is_ctrl e = e.type == ctrl

abbrev pub is_interrupt : Epid → Bool
is_interrupt e = e.type == interrupt

abbrev pub is_bulk : Epid → Bool
is_bulk e = e.type == bulk

abbrev pub is_isochronous : Epid → Bool
is_isochronous e = e.type == isoc

-- A struct usb_endpoint_descriptor: bLength, bDescriptorType, bEndpointAddress, bmAttributes,
-- wMaxPacketSize (2 bytes), bInterval, bRefresh, bSynchAddress.
abbrev pub b_endpoint_address : Bytes → ℕ
b_endpoint_address d = byte_at d 2

abbrev pub bm_attributes : Bytes → ℕ
bm_attributes d = byte_at d 3

abbrev pub w_max_packet_size : Bytes → ℕ
w_max_packet_size d = read16 d 4

abbrev pub b_interval : Bytes → ℕ
b_interval d = byte_at d 6

-- The identity that a descriptor stands for: `& USB_ENDPOINT_NUMBER_MASK` (0x0f) keeps the low
-- four bits, `& USB_ENDPOINT_XFERTYPE_MASK` (0x03) the low two, `& USB_ENDPOINT_DIR_MASK` (0x80)
-- the top bit of the byte.
unfoldable pub epid_of_desc : Bytes → Epid
unfolding ep_type_from_kernel ep_dir_from_kernel
epid_of_desc d = record {
  num = b_endpoint_address d % 16;
  type = ep_type_from_kernel (bm_attributes d % 4);
  dir = ep_dir_from_kernel (b_endpoint_address d / 128 % 2 * 128);
}

-- A struct usb_ctrlrequest, its eight bytes: bRequestType, bRequest, wValue, wIndex,
-- wLength.
abbrev pub w_value : Bytes → ℕ
w_value c = read16 c 2

abbrev pub w_index : Bytes → ℕ
w_index c = read16 c 4

abbrev pub w_length : Bytes → ℕ
w_length c = read16 c 6

-- IS_TYPE_STANDARD: `& USB_TYPE_MASK` (0x60) keeps two bits.
abbrev pub is_type_standard : Bytes → Bool
is_type_standard c = byte_at c 0 / 32 % 4 == 0

abbrev pub is_set_configuration : Bytes → Bool
is_set_configuration c = is_type_standard c && byte_at c 1 == 9

abbrev pub is_set_interface : Bytes → Bool
is_set_interface c = is_type_standard c && byte_at c 1 == 11

-- IS_GET_DESCRIPTOR, IS_GET_DESC_CONFIGURATION, for USB_REQ_GET_DESCRIPTOR (6) and USB_DT_CONFIG
-- (2)
abbrev pub is_get_descriptor : Bytes → Bool
is_get_descriptor c = is_type_standard c && byte_at c 1 == 6

abbrev pub is_get_desc_configuration : Bytes → Bool
is_get_desc_configuration c = is_get_descriptor c && w_value c / 256 == 2

-- EP_DIR_FROM_KERNEL(ctrl->bRequestType & USB_ENDPOINT_DIR_MASK)
abbrev pub dir_of_ctrl : Bytes → ℕ
dir_of_ctrl c = ep_dir_from_kernel (byte_at c 0 / 128 % 2 * 128)
