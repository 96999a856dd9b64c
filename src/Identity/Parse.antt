-- ===== src/Identity/Parse.antt =====
-- parse_init_pkt of gadget.c. A cursor into the packet is the memory from there on, with the
-- number of bytes that the packet still has; the memory goes on behind the packet.
use usbq_core.Msg.{msg_get_data_size, msg_get_data, Msg}
use usbq_core.Identity.{
  usb_dt_endpoint_size, usb_dt_config, sizeof_endpoint_descriptor, usb_dt_interface, usb_dt_device,
  usb_dt_endpoint, b_descriptor_type, b_num_endpoints, usb_dt_device_size, usb_dt_config_size,
  usb_dt_interface_size, max_endpoint_interface, Identity, b_length, InterfaceDesc,
}
use usbq_core.Prelude.{
  Bool, Bytes, List, Option, drop, einval, false, get_elem?, if◌then◌else◌, leb, load, ltb, none,
  not, pos, read32, set, some, suc, take, true, zero, ℕ, ℤ, ◌+◌, ◌-◌, ◌==◌, ◌>>=◌, ◌^◌, ◌||◌,
}

-- `size` is a size_t that is passed as an int.
unfoldable pub check_descriptor_header : Bytes → ℕ → Bool
check_descriptor_header buffer size =
    if ltb size 2
    then false
    else if leb (2 ^ 31) size
    then false
    else if ltb size (b_length buffer) || ltb (b_length buffer) 2
    then false
    else true

-- The outcome of the loop over the descriptors behind an interface descriptor: `goto end`, or the
-- cursor behind them, each with the interface as it then is. `fault` is a write outside of the
-- interface table or a read outside of the packet's memory.
pub data EpRun : Type 0 where
  ended : Option InterfaceDesc → EpRun
  finished : Option InterfaceDesc → Bytes → ℕ → EpRun
  fault : EpRun
  out_of_fuel : EpRun

-- memcpy(&identity->interfaces[i_interface].endpoints[i_ep], e, sizeof *e), where `cur` is
-- interfaces[i_interface], none behind the end of the table.
unfoldable pub write_endpoint : Option InterfaceDesc → ℕ → Bytes → Option InterfaceDesc
write_endpoint none i_ep e = none
write_endpoint (some cur) i_ep e =
    let written = load e 0 sizeof_endpoint_descriptor >>= λ bytes.
    some (record cur { endpoints = set cur.endpoints i_ep bytes }) in
    if ltb i_ep max_endpoint_interface then written else none

-- `d_length` is d->bLength, which the code tests in place of e->bLength.
unfoldable pub endpoint_loop :
    ℕ → (d_length nb_ep i_ep : ℕ) → Option InterfaceDesc → Bytes → ℕ → EpRun
endpoint_loop zero d_length nb_ep i_ep cur buffer size = out_of_fuel
endpoint_loop (suc fuel) d_length nb_ep i_ep cur buffer size =
    let buffer' = drop (b_length buffer) buffer in
    let size' = size - b_length buffer in
    let skipped = endpoint_loop fuel d_length nb_ep i_ep cur buffer' size' in
    let written : EpRun = elim (write_endpoint cur i_ep buffer) [
      | none ↦ fault
      | some cur' ↦ endpoint_loop fuel d_length nb_ep (i_ep + 1) (some cur') buffer' size'
    ] in
    if not (ltb i_ep nb_ep)
    then finished cur buffer size
    else if not (check_descriptor_header buffer size)
    then ended cur
    else if b_descriptor_type buffer == usb_dt_endpoint
    then (if ltb d_length usb_dt_endpoint_size then skipped else written)
    else skipped

-- The table with interface `i` as the loop left it.
unfoldable pub put_interface : List InterfaceDesc → ℕ → Option InterfaceDesc → List InterfaceDesc
put_interface table i none = table
put_interface table i (some cur) = set table i cur

-- The outcome of the loop over the interfaces: the table and i_interface.
pub data Run : Type 0 where
  done : List InterfaceDesc → ℕ → Run
  fault : Run
  out_of_fuel : Run

-- What follows the endpoints: the descriptor is copied, `active` is cleared, and the loop goes on.
unfoldable pub close_interface :
    List InterfaceDesc → ℕ → Bytes → EpRun → (List InterfaceDesc → ℕ → Bytes → ℕ → Run) → Run
close_interface table i d (ended cur) again = done (put_interface table i cur) i
close_interface table i d (finished none buffer size) again = Run.fault
close_interface table i d (finished (some cur) buffer size) again =
    elim (load d 0 usb_dt_interface_size) [
      | none ↦ Run.fault
      | some desc ↦
          again (put_interface table i (some (record cur { desc = desc; active = 0 }))) (i + 1)
            buffer size
    ]
close_interface table i d EpRun.fault again = Run.fault
close_interface table i d EpRun.out_of_fuel again = Run.out_of_fuel

-- while (size > 0)
unfoldable pub interface_loop : ℕ → List InterfaceDesc → ℕ → Bytes → ℕ → Run
interface_loop zero table i buffer size = Run.out_of_fuel
interface_loop (suc fuel) table i buffer size =
    let buffer' = drop (b_length buffer) buffer in
    let size' = size - b_length buffer in
    let skipped = interface_loop fuel table i buffer' size' in
    let opened =
      close_interface table i buffer
        (endpoint_loop (suc size') (b_length buffer) (b_num_endpoints buffer) 0 (get_elem? table i)
          buffer' size')
        (interface_loop fuel) in
    if size == 0
    then done table i
    else if not (check_descriptor_header buffer size)
    then done table i
    else if b_descriptor_type buffer == usb_dt_interface
    then (if ltb (b_length buffer) usb_dt_interface_size then skipped else opened)
    else skipped

-- A result of the parser, as a fault is none: the identity and the return value.
abbrev pub Result : Type 0
Result = Option (Identity × ℤ)

unfoldable pub parse_interfaces : Identity → Bytes → ℕ → Result
parse_interfaces identity buffer size =
    elim (interface_loop (suc size) identity.interfaces 0 buffer size) [
      | done table i ↦ some (record identity { interfaces = table; nb_int = i }, pos 0)
      | Run.fault ↦ none
      | Run.out_of_fuel ↦ none
    ]

abbrev pub invalid : Identity → Result
invalid identity = some (record identity { nb_int = 0 }, einval)

unfoldable pub parse_configuration : Identity → Bytes → ℕ → Result
parse_configuration identity buffer size =
    let conf = take usb_dt_config_size buffer in
    let identity' = record identity { conf = conf } in
    if ltb size usb_dt_config_size
    then invalid identity
    else if not (b_descriptor_type conf == usb_dt_config)
        || ltb (b_length conf) usb_dt_config_size
        || ltb size (b_length conf)
    then invalid identity'
    else parse_interfaces identity' (drop (b_length conf) buffer) (size - b_length conf)

unfoldable pub parse_device : Identity → Bytes → ℕ → Result
parse_device identity buffer size =
    let device = take usb_dt_device_size buffer in
    let identity' = record identity { device = device } in
    if ltb size usb_dt_device_size
    then invalid identity
    else if not (b_descriptor_type device == usb_dt_device)
        || ltb (b_length device) usb_dt_device_size
        || ltb size (b_length device)
    then invalid identity'
    else parse_configuration identity' (drop (b_length device) buffer) (size - b_length device)

-- Speed Parsing, with what follows it.
unfoldable pub parse_packet : Identity → Bytes → ℕ → Result
parse_packet identity buffer size =
    if ltb size 4
    then invalid identity
    else parse_device (record identity { speed = read32 buffer 0 }) (drop 4 buffer) (size - 4)

unfoldable pub parse_init_pkt : Identity → Msg → Result
parse_init_pkt identity msg =
    parse_packet identity (drop (msg_get_data msg) msg.body) (msg_get_data_size msg)
