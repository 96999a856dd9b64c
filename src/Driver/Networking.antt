-- ===== src/Driver/Networking.antt =====
-- The driver as the callback of its com_t: what comes over the network is given to
-- driver_recv_userland of driver.c by com_recv of com.c.
use usbq_core.Action.{Ok, Ok-result}
use usbq_core.Com.{Com, com_recv}
use usbq_core.Com.Calling.{Served, com_work, com_work-Served}
use usbq_core.Com.Deliver.{IsBuffer, com_recv-length}
use usbq_core.Driver.Dispatch.{driver_recv_userland}
use usbq_core.Driver.Module.{ubq_driver_init}
use usbq_core.Driver.Receiving.{IsForDriver}
use usbq_core.Driver.Request.{data_at}
use usbq_core.Driver.Running.{ComesTo, driver_come-IsWatched}
use usbq_core.Driver.Serving.{driver_recv_userland-V}
use usbq_core.Driver.Sound.{IsSteady, IsWatched}
use usbq_core.Driver.State.{DriverState}
use usbq_core.Driver.Switching.{Configures, Offers}
use usbq_core.Endpoint.{Kernel}
use usbq_core.Gadget.Copying.{ten-msg_get_data}
use usbq_core.Gadget.State.{run}
use usbq_core.Msg.{Msg, ack_type, get_epid, is_usb_msg, msg_get_data, msg_get_data_size}
use usbq_core.Msg.Copy.{Fits, data_end-le}
use usbq_core.Part.Accounts.{Gives}
use usbq_core.Types.{is_ctrl, is_set_interface, w_index, w_length, w_value}
use usbq_core.Udp.{Net, Run, done}
use usbq_core.Udp.Recv.{Bounded}
use usbq_core.Prelude.{arith, drop, inr, length, none, some, take, true, ℕ, ℤ, ◌+◌, ◌<◌, ◌≡◌, ◌≤◌}

-- What the check of com_recv does not look at: that the data for a control endpoint begin with a
-- control request, whose wLength is a word of sixteen bits, and that a SET_INTERFACE is for what is
-- there.
pub record IsMeant {W : Type 0} (k : Kernel W) (msg : Msg) : Type 0 where
  pub request : is_ctrl (get_epid msg) ≡ true → 8 ≤ msg_get_data_size msg
  pub length_lt : w_length (take 8 (drop data_at msg.body)) < 65536
  pub offers :
      is_set_interface (take 8 (drop data_at msg.body)) ≡ true
      → Offers k
          (w_index (take 8 (drop data_at msg.body)))
          (w_value (take 8 (drop data_at msg.body)))

-- A message that fits a buffer of a datagram, and has data or acknowledges data, can be sent.
IsMeant-IsForDriver :
    {W : Type 0} (k : Kernel W) (msg : Msg)
    → is_usb_msg msg ≡ true
    → Fits msg
    → length msg.body < 65528
    → IsMeant k msg
    → IsForDriver k msg
IsMeant-IsForDriver k msg usb fits small m =
    let type_le : msg.type ≤ ack_type = ground (arith, usb) in
    let end : msg_get_data msg + msg_get_data_size msg + 8 ≡ msg.size = data_end-le msg fits in
    record {
      sendable = inr (record {
        fits = fits;
        within = omega (arith, end, fits.within, ten-msg_get_data msg type_le);
        small = omega (arith, end, fits.within, small);
        request = m.request;
        length_lt = m.length_lt;
      });
      offers = m.offers;
    }

module _ {S W : Type 0} (net : Net S) (bounded : Bounded net) (k : Kernel W) (gives : Gives k)
    (configures : Configures k) where
  work-IsWatched :
      (n fuel : ℕ) (channel : Com S) (s : DriverState W)
      → IsBuffer net bounded channel.msg
      → length channel.msg.body < 65528
      → IsWatched n none s
      → ((rest : Com S) (msg : Msg)
          → com_recv net fuel channel ≡ done (rest, some msg)
          → is_usb_msg msg ≡ true
          → IsMeant k msg)
      → Ok
          (λ r s'. Served net bounded r × IsWatched n none s')
          (com_work net (driver_recv_userland k) fuel channel s)
  work-IsWatched n fuel channel s b small v meant =
      com_work-Served net bounded (driver_recv_userland k) (IsWatched n none) channel b fuel s v
        (λ rest msg e _ fits. driver_recv_userland-V k gives configures n msg s v (λ usb.
          IsMeant-IsForDriver k msg usb fits
            (omega (arith, com_recv-length net bounded fuel channel rest msg b e, small))
            (meant rest msg e usb)))

-- Whatever comes over the network to a driver that ubq_driver_init has opened, after whatever
-- events: com_recv, with any number of rounds for the loop of udp_recv, on a buffer of less than
-- 65528 bytes and with driver_recv_userland as its callback, never leaves the memory. The driver is
-- as every event leaves it, with distinct addresses and all that it has still allocated besides
-- what was there before, and the buffer serves for the next message. The socket stores no more
-- bytes than it has room for and kmalloc gives as many as it is asked for; the interfaces of the
-- kernel have no control endpoint, and the devices that usb_register finds have descriptors of the
-- sizes that they should; and if what is received is a message for an endpoint, then its
-- wLength would be a word of sixteen bits, it has at least eight bytes of data if the endpoint is a
-- control endpoint, and a SET_INTERFACE is for an interface and an alternate setting that are
-- there.
pub com_work-IsSteady :
    {S W : Type 0} (net : Net S) (bounded : Bounded net) (k : Kernel W)
    → Gives k
    → Configures k
    → (s0 s t : DriverState W) (err : ℤ) (fuel : ℕ) (channel : Com S)
    → ubq_driver_init k s0 ≡ some (err, s)
    → ComesTo k s t
    → IsBuffer net bounded channel.msg
    → length channel.msg.body < 65528
    → ((rest : Com S) (msg : Msg)
        → com_recv net fuel channel ≡ done (rest, some msg)
        → is_usb_msg msg ≡ true
        → IsMeant k msg)
    → (r : Run (Com S)) × (t' : DriverState W) × (com_work net
          (driver_recv_userland k)
          fuel
          channel
          t
        ≡ some (r, t'))
      × Served net bounded r
      × IsSteady s0.heap.live t'
com_work-IsSteady net bounded k gives configures s0 s t err fuel channel begun come b small meant =
    let (r, t', run, served) =
      Ok-result (λ r s'. Served net bounded r × IsWatched s0.heap.live none s')
        (com_work net (driver_recv_userland k) fuel channel t)
        (work-IsWatched net bounded k gives configures s0.heap.live fuel channel t b small
          (driver_come-IsWatched k gives configures s0 s t err begun come) meant) in
    (r, t', run, served.0, served.1.steady)
