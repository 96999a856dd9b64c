-- ===== src/Tests/Networking.antt =====
-- A SET_INTERFACE comes over the network to the driver.
use usbq_core.Com.{Com, com_recv, com_recv_result}
use usbq_core.Com.Calling.{Served, com_work}
use usbq_core.Driver.Dispatch.{driver_recv_userland}
use usbq_core.Driver.Networking.{IsMeant, com_work-IsSteady}
use usbq_core.Driver.Running.{plug, begins, then_after}
use usbq_core.Driver.Sound.{IsSteady}
use usbq_core.Driver.State.{DriverState}
use usbq_core.Msg.{Msg, check_msg, is_usb_msg, msg_diff_size, msg_get_data_size}
use usbq_core.Tests.Attaching.{
  attached, attached-Configures, attached-Gives, begun, disk_interface,
  disk_interface-IsKernelInterface, free_port, probed, storage-IsKernelAltsetting,
}
use usbq_core.Tests.Data.{disk, disk-IsDevice, idle, socket, storage}
use usbq_core.Udp.{
  Net, Received, Run, done, failed, import_single_range, keep_received, of_wire, raw_recv, received,
  recv_first, recv_loop, recv_msg, recv_step, to_wire, udp_com_recv, udp_recv,
}
use usbq_core.Udp.Recv.{Bounded}
use usbq_core.Prelude.{
  Bytes, Option, [], ap, arith, byte_at, drop, le32, length, length-take, none, overwrite, pos,
  read16, read32, refl, replicate, some, store, subst, sym, take, true, ℕ, ◌++◌, ◌∙◌, ◌∷◌, ◌≡◌,
}

abbrev wire : Bytes
wire =
    26 ∷ 0 ∷ 0 ∷ 0 ∷ 0 ∷ 0 ∷ 0 ∷ 0 ∷ 0 ∷ 0 ∷ 0 ∷ 0 ∷ 0 ∷ 0 ∷ 1 ∷ 0 ∷ 0 ∷ 0 ∷ 1 ∷ 11 ∷ 0 ∷ 0 ∷ 0 ∷ 0
    ∷ 0 ∷ 0 ∷ []

-- A socket with that message.
abbrev mailbox : Net Bytes
mailbox = record socket {
  sock_recvmsg = λ s len. (s, received (take len wire) (record { port = 0; ip = 0 }));
}

length_of : Received → ℕ
length_of (received bytes from) = length bytes
length_of (failed n) = 0

mailbox-Bounded : Bounded mailbox
unfolding length_of
mailbox-Bounded s s' len bytes from e =
    let count : length (take len wire) ≡ length bytes = ap (λ r. length_of r.1) e in
    omega (arith, count, length-take len wire)

abbrev buffer : Com Bytes
buffer = record {
  msg = record { allocated_size = 26; size = 18; type = 0; body = replicate 26 0 };
  state = idle;
  has_state = true;
}

-- The message, in the memory of the buffer.
abbrev delivered : Msg
delivered = record { allocated_size = 26; size = 26; type = 0; body = drop 8 wire ++ replicate 8 0 }

-- What com_recv gives.
given : Run (Com Bytes × Option Msg) → Option Msg
given (done (channel, o)) = o
given Run.fault = none
given Run.out_of_fuel = none

delivered_eq : given (com_recv mailbox 2 buffer) ≡ some delivered
unfolding given com_recv com_recv_result udp_com_recv udp_recv raw_recv import_single_range
    recv_first recv_loop recv_step to_wire of_wire check_msg read32 read16 byte_at le32 recv_msg
    keep_received store overwrite
delivered_eq = refl

delivered-IsMeant : IsMeant attached delivered
unfolding msg_get_data_size msg_diff_size byte_at read16
delivered-IsMeant = record {
  request = λ _. omega arith;
  length_lt = omega arith;
  offers = λ _ w. (
    disk_interface, refl, disk_interface-IsKernelInterface, storage, refl,
    storage-IsKernelAltsetting,
  );
}

delivered_messages-IsMeant :
    (rest : Com Bytes) (msg : Msg)
    → com_recv mailbox 2 buffer ≡ done (rest, some msg)
    → is_usb_msg msg ≡ true
    → IsMeant attached msg
unfolding given
delivered_messages-IsMeant rest msg e usb =
    let same : some delivered ≡ some msg = sym delivered_eq ∙ ap given e in
    let found : delivered ≡ msg = cc in subst (IsMeant attached) found delivered-IsMeant

com_work-IsSteady_example :
    (r : Run (Com Bytes)) × (t : DriverState ℕ) × (com_work mailbox
        (driver_recv_userland attached)
        2
        buffer
        (probed.0)
      ≡ some (r, t))
    × Served mailbox mailbox-Bounded r
    × IsSteady 0 t
com_work-IsSteady_example =
    com_work-IsSteady mailbox mailbox-Bounded attached attached-Gives attached-Configures free_port
      free_port (probed.0) (pos 0) 2 buffer begun
      (then_after (plug disk) begins disk-IsDevice (probed.1))
      (record { room = omega arith; small = omega arith }) (omega arith) delivered_messages-IsMeant
