-- ===== src/Driver/Request.antt =====
-- driver.c: the requests of an endpoint, and the functions that fill them.
use usbq_core.Action.{Act, crash, lift, ret, ◌▷◌}
use usbq_core.Driver.State.{DriverEndpoint, DriverRequest, DriverState}
use usbq_core.Endpoint.{
  Kernel, Pipe, Urb, packet_size_of, rcvbulkpipe, rcvctrlpipe, rcvintpipe, rcvisocpipe, sndbulkpipe,
  sndctrlpipe, sndintpipe, sndisocpipe,
}
use usbq_core.Msg.{Msg, data_type, msg_get_data_size, msgcpy}
use usbq_core.Part.Requests.{alloc_request, filled, free_request}
use usbq_core.Types.{
  Epid, b_interval, is_bulk, is_ctrl, is_in, is_interrupt, is_isochronous, w_length,
}
use usbq_core.Prelude.{
  Bytes, Option, [], add32, if◌then◌else◌, load, none, pos, some, ℕ, ◌%◌, ◌*◌, ◌+◌, ◌/◌, ◌>>=◌, ◌∷◌,
}

-- NB_ISOC_PKTS, ISOC_PKTS, MAX_ISOC_PKT, MAX_ISOC_FRAME: le16_to_cpu keeps sixteen bits.
abbrev pub nb_isoc_pkts : ℕ
nb_isoc_pkts = 1

unfoldable pub isoc_pkts : ℕ → ℕ
isoc_pkts w = w % 65536 / 2048 + 1

unfoldable pub max_isoc_pkt : ℕ → ℕ
max_isoc_pkt w = w % 65536 % 2048

unfoldable pub max_isoc_frame : ℕ → ℕ
max_isoc_frame w = isoc_pkts w * max_isoc_pkt w

abbrev pub max_bulk_size : ℕ
max_bulk_size = 2048

unfoldable pub get_pipe : Epid → Pipe
get_pipe e =
    if is_ctrl e
    then (if is_in e then rcvctrlpipe e.num else sndctrlpipe e.num)
    else if is_interrupt e
    then (if is_in e then rcvintpipe e.num else sndintpipe e.num)
    else if is_bulk e
    then (if is_in e then rcvbulkpipe e.num else sndbulkpipe e.num)
    else (if is_in e then rcvisocpipe e.num else rcvisocpipe e.num)

-- `msg->data` stands behind the epid, whatever the type of the message.
abbrev pub data_at : ℕ
data_at = 10

unfoldable pub ctrlrequest : Msg → Option Bytes
ctrlrequest msg = load msg.body data_at 8

abbrev pub init_urb : Urb
init_urb = record {
  pipe = sndctrlpipe 0;
  setup_packet = none;
  transfer_buffer = 0;
  transfer_buffer_length = 0;
  interval = 0;
  iso_frame_desc = [];
  status = pos 0;
  actual_length = 0;
}

-- msgcpy(req->msg, msg->data, msg_get_data_size(msg))
unfoldable pub backup_data : Msg → Msg → Option Msg
backup_data dest msg = do bytes ← load msg.body data_at (msg_get_data_size msg); msgcpy dest bytes

-- ep->desc->bInterval, where a descriptor is needed.
abbrev pub interval_of : DriverEndpoint → Option ℕ
interval_of ep = elim ep.desc [ none ↦ none | some d ↦ some (b_interval d) ]

module _ {W : Type 0} (k : Kernel W) where
  unfoldable pub alloc_driver_request :
      DriverEndpoint → ℕ → Act (DriverState W) (Option DriverRequest)
  alloc_driver_request ep sz =
      alloc_request k (k.usb_alloc_urb (if is_isochronous ep.epid then nb_isoc_pkts else 0))
        (λ _. init_urb) ep 72 sz data_type

  unfoldable pub free_driver_request :
      DriverEndpoint → DriverRequest → Act (DriverState W) (Unit {0})
  free_driver_request ep req = free_request k ep req

  -- ep_free_driver_request
  unfoldable pub ep_free_driver_request :
      DriverEndpoint → DriverRequest → Act (DriverState W) (Unit {0})
  ep_free_driver_request ep req = free_driver_request ep req

  unfoldable pub ep_driver_fill_ctrl_request :
      DriverEndpoint → Option Msg → Act (DriverState W) (Option DriverRequest)
  ep_driver_fill_ctrl_request ep none = crash
  ep_driver_fill_ctrl_request ep (some msg) = lift (ctrlrequest msg) ▷ λ c.
      alloc_driver_request ep (
        if is_in ep.epid then add32 (w_length c) (msg_get_data_size msg) else msg_get_data_size msg)
      ▷ elim [
        | none ↦ ret none
        | some req ↦ lift (backup_data req.msg msg) ▷ λ m. filled k ep (record req {
          msg = m;
          transfer = record init_urb {
            pipe = get_pipe ep.epid;
            setup_packet = some data_at;
            transfer_buffer = data_at + 8;
            transfer_buffer_length = w_length c;
          };
        })
      ]

  -- The length of the transfer: the room for what comes in, or the data that goes out.
  abbrev pub transfer_size : DriverEndpoint → Msg → ℕ
  transfer_size ep m = if is_in ep.epid then m.allocated_size else msg_get_data_size m

  -- Allocate the request: for what comes in, of the given size, or with the data of `msg`.
  unfoldable pub request_for :
      DriverEndpoint → ℕ → Option Msg → Act (DriverState W) (Option DriverRequest)
  request_for ep sz none = alloc_driver_request ep sz
  request_for ep sz (some msg) = alloc_driver_request ep (msg_get_data_size msg) ▷ elim [
    | none ↦ ret none
    | some req ↦ lift (backup_data req.msg msg) ▷ λ m. ret (some (record req { msg = m }))
  ]

  -- The speed of the device does not change while the request is filled.
  abbrev fill_interval : ℕ → Act (DriverState W) ℕ
  fill_interval b s = some (k.int_interval s.heap.world b, s)

  unfoldable pub ep_driver_fill_int_request :
      DriverEndpoint → Option Msg → Act (DriverState W) (Option DriverRequest)
  ep_driver_fill_int_request ep msg = lift (packet_size_of ep) ▷ λ size.
      lift (interval_of ep) ▷ λ b. fill_interval b ▷ λ interval. request_for ep size msg ▷ elim [
        | none ↦ ret none
        | some req ↦ filled k ep (record req {
          transfer = record init_urb {
            pipe = get_pipe ep.epid;
            transfer_buffer = data_at;
            transfer_buffer_length = transfer_size ep req.msg;
            interval = interval;
          };
        })
      ]

  unfoldable pub ep_driver_fill_bulk_request :
      DriverEndpoint → Option Msg → Act (DriverState W) (Option DriverRequest)
  ep_driver_fill_bulk_request ep msg = request_for ep max_bulk_size msg ▷ elim [
    | none ↦ ret none
    | some req ↦ filled k ep (record req {
      transfer = record init_urb {
        pipe = get_pipe ep.epid;
        transfer_buffer = data_at;
        transfer_buffer_length = transfer_size ep req.msg;
      };
    })
  ]

  -- `sz` and the pipe, which depend on whether there is a message.
  abbrev pub isoc_size : ℕ → Option Msg → Msg → ℕ
  isoc_size packet none m = max_isoc_frame packet
  isoc_size packet (some msg) m = msg_get_data_size m

  abbrev pub isoc_pipe : DriverEndpoint → Option Msg → Pipe
  isoc_pipe ep none = rcvisocpipe ep.epid.num
  isoc_pipe ep (some msg) = sndisocpipe ep.epid.num

  unfoldable pub ep_driver_fill_isoc_request :
      DriverEndpoint → Option Msg → Act (DriverState W) (Option DriverRequest)
  ep_driver_fill_isoc_request ep msg = lift (packet_size_of ep) ▷ λ packet.
      lift (interval_of ep) ▷ λ interval.
      request_for ep (max_isoc_frame packet * nb_isoc_pkts) msg ▷ elim [
        | none ↦ ret none
        | some req ↦
            let sz : ℕ = isoc_size packet msg req.msg in
            filled k ep (record req {
              transfer = record init_urb {
                pipe = isoc_pipe ep msg;
                transfer_buffer = data_at;
                transfer_buffer_length = max_isoc_frame sz * nb_isoc_pkts;
                interval = interval;
                iso_frame_desc = (0, sz) ∷ [];
              };
            })
      ]
