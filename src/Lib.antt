-- ===== src/Lib.antt =====
-- A verification library for usbq_core, two kernel modules that put a physical USB device and a host
-- on different machines and pass all traffic through a program in userland. Beside the device runs
-- the driver part (driver.c), beside the host the gadget part (gadget.c). Both exchange messages
-- (msg.c) with userland over UDP (com.c, com_udp.c), and share endpoint objects (common.c).
--
-- When a device is plugged in, the driver sends a packet with its descriptors (build_init_pkt). The
-- gadget reads it (parse_init_pkt) and shows itself to the host as that device. From then on every
-- request of the host goes as a message to the driver, which submits it, and the answer goes back.
--
--   Types      types.h, common.h: epid_t, its enumerations, the conversion macros
--   Msg        msg.h, msg.c: layout and sizes, msgcpy, alloc_msg and its kin, check_msg
--   Udp        com_udp.c: udp_init, udp_send, udp_recv over the socket calls of `Net`
--   Com        com.c: com_init, com_recv, com_send, com_close over the transport; Calling is com_recv
--              with the callback that a part gives
--   Identity   driver.c (build_init_pkt) and gadget.c (parse_init_pkt): the packet of a device
--   Endpoint   common.c: _create_endpoint and its callers, free_endpoint, find_endpoint,
--              send_userland; the structs of driver.c and types.h, and the interface `Kernel`
--   Action     the handlers of both parts: actions on a state that may leave their memory
--   Part       what driver.c and gadget.c do alike: lists of endpoints and of requests, their
--              allocation (Requests, Accounts, Adding) and release (Cleanup), and the list of
--              endpoints as a table (Table, Stacks) with distinct addresses (Addresses)
--   Driver     driver.c: State (endpoint management), Request (requests and the fill functions),
--              Callbacks and Dispatch (the table driver_cb_conf, completions, messages of userland,
--              registration and disconnection), Interfaces (interfaces and altsettings), Probe
--              (driver_probe), Module (ubq_driver_init and ubq_driver_exit), whose outcome is in
--              Starting; Sound is the invariant of its state, and Running the events that keep it,
--              in any order; in Networking the driver is the callback of com_recv
--   Gadget     gadget.c and gadget.h: State (endpoint management, usb_ep_config), Requests (requests
--              and the fill functions), Interfaces, Callbacks (the table gadget_cb_conf, completions),
--              Setup (control requests of the host), Dispatch (binding, a new device, a reset, messages
--              of userland, ubq_gadget_init and ubq_gadget_exit), over the gadget layer `Udc`;
--              Sound is the invariant of its state, and Running the events that keep it, in any order
--   Core       core.c: ubq_core_init and ubq_core_exit
--   Prelude    lists, bytes, words and results
--   Tests      concrete inputs
--
-- Functions keep their C names. Memory is a list of bytes, and a read or write outside of it makes
-- the run `none` (or `Run.fault`). The target is a 32-bit little-endian machine: a size_t wraps
-- around at 2 ^ 32, and a message counts its fields as they lie in the packed struct. Pointers to
-- endpoints and requests are addresses `ref`. A handler is an action on the state `Part` of its
-- part, whose heap counts the objects that are allocated (`live`). What is at an index of the
-- arrays of an identity_t is an action too, since the gadget writes there. An early return is a
-- branch. A loop of the sources that counts is recursion on the list that it walks; the loops of
-- udp_send, udp_recv and of the parser run on fuel. The parser needs one round more than it has
-- bytes, since each descriptor takes two bytes at least, and udp_send one more than the bytes to
-- send, since each round sends one at least. udp_recv may wait for ever, and is not bounded.
--
-- The socket layer (`Net`), kmalloc, the USB core with the com_t of the driver (`Kernel`) and the
-- gadget layer (`Udc`) are parameters. usb_register, when it answers 0, calls driver_probe for each
-- device that has an interface without driver (`unbound`), and usb_deregister calls
-- driver_disconnect for each interface that the driver has (`bound`), which is any number. What is
-- asked of the parameters: kmalloc gives as many bytes as it is asked for, a socket accepts bytes
-- in order and stores no more than it has room for. A killed URB completes with -ENOENT before
-- usb_kill_urb returns, and a request that usb_ep_dequeue finds with -ECONNRESET. Where the code
-- asks for the version of the kernel, it is one from 4.3 on. Assertions and logs print, and are
-- left out, also where a log reads what it prints. Work queues run their work at once. What
-- com_send reads of a message that a part sends is not seen in that part, and the count of sent
-- bytes does not wrap around in udp_send.
--
-- Not modelled: the code that only formats and prints (debug.c, debug_usb.c, util.c), and the field
-- driver_data of a usb_ep, which is only written.
pub mod Prelude
pub mod Types
pub mod Msg
pub mod Udp
pub mod Com
pub mod Identity
pub mod Endpoint
pub mod Action
pub mod Part
pub mod Driver
pub mod Gadget
pub mod Core
pub mod Tests
