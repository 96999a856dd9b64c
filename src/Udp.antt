-- ===== src/Udp.antt =====
-- com_udp.c: messages over a UDP socket. The socket itself (sock_create, bind, sock_sendmsg,
-- sock_recvmsg, access_ok) is code of the kernel: it is a parameter, with a state of its own that
-- is passed from call to call. The version is Linux 4.1, as the README says.
use usbq_core.Msg.{Msg}
pub mod Send
pub mod Recv
pub mod Progress
use usbq_core.Prelude.{
  Bool, Bytes, Option, drop, einval, eio, false, if◌then◌else◌, is_neg, is_nonzero, le32, length,
  load, ltb, negsuc, none, not, pos, read32, some, store, sub32, suc, true, zero, ℕ, ℤ, ◌++◌, ◌+◌,
  ◌==◌, ◌>>=◌, ◌>>◌,
}

-- A struct sockaddr_in, family AF_INET.
pub record Addr : Type 0 where
  pub port : ℕ
  pub ip : ℕ

-- What sock_recvmsg gives: an error, or the bytes that it has stored with the address of their
-- sender (msg_name).
pub data Received : Type 0 where
  failed : ℕ → Received
  received : Bytes → Addr → Received

-- The socket calls that the module makes, over the state `S` of the socket layer.
pub record Net (S : Type 0) : Type 0 where
  -- sock_create: the new socket, or a failure
  pub sock_create : S → S × Bool
  -- bind to a port at INADDR_ANY: zero, or an error
  pub bind : S → Addr → S × ℤ
  pub sock_release : S → S
  -- sock->sk != NULL
  pub has_sk : S → Bool
  -- the bytes offered, and how many were accepted, or an error
  pub sock_sendmsg : S → Addr → Bytes → S × ℤ
  -- the room offered, and the bytes received with their sender, or an error
  pub sock_recvmsg : S → ℕ → S × Received
  pub access_ok : S → ℕ → Bool

-- udp_opt_t
pub record UdpOpt : Type 0 where
  pub port : ℕ
  pub addr : ℕ
  pub connect : ℕ

-- udp_state_t, less the pointers to the callback and back to com_t.
pub record UdpState (S : Type 0) : Type 0 where
  pub sockservaddr : Addr
  pub clientaddr : Addr
  -- udpsocket, with whether the pointer is set
  pub udpsocket : S
  pub has_socket : Bool

-- The bytes of a message from its field `size` on, which are what goes over the wire.
unfoldable pub to_wire : Msg → Bytes
to_wire m = le32 m.size ++ (le32 m.type ++ m.body)

-- The message whose memory holds those bytes.
unfoldable pub of_wire : ℕ → Bytes → Msg
of_wire allocated_size wire = record {
  allocated_size = allocated_size;
  size = read32 wire 0;
  type = read32 wire 4;
  body = drop 8 wire;
}

-- A run of a loop: it returned a value in a new state, it left its memory, or its fuel ran out.
pub data Run (A : Type 0) : Type 0 where
  done : A → Run A
  fault : Run A
  out_of_fuel : Run A

abbrev pub max_rw_count : ℕ
max_rw_count = 0x7ffff000

abbrev pub efault : ℤ
efault = negsuc 13

module _ {S : Type 0} (net : Net S) where
  open net use {sock_create, bind, sock_release, has_sk, sock_sendmsg, sock_recvmsg, access_ok}

  -- INADDR_ANY is 0. The port is kept in host order, as `opt` has it.
  unfoldable pub udp_init : UdpState S → UdpOpt → UdpState S × ℤ
  udp_init state opt =
      let (s, created) = sock_create state.udpsocket in
      let opened = record state { udpsocket = s; has_socket = true } in
      let server : Addr = record { port = opt.port; ip = 0 } in
      let (s', servererror) = bind s server in
      let bound = record opened { sockservaddr = server; udpsocket = s' } in
      if not created
      then (record state { udpsocket = s }, eio)
      else if opt.connect == 0
      then (if is_nonzero servererror
          then (record bound { udpsocket = sock_release s' }, eio)
          else (bound, pos 0))
      else (record opened { clientaddr = record { port = opt.port; ip = opt.addr } }, pos 0)

  unfoldable pub udp_close : UdpState S → UdpState S
  udp_close state =
      if state.has_socket
      then record state { udpsocket = sock_release state.udpsocket; has_socket = false }
      else state

  -- `allocated` is whether kmalloc gave the state; the result is the pointer, none for NULL.
  unfoldable pub udp_com_init : Bool → UdpState S → UdpOpt → UdpState S × Bool
  udp_com_init false state opt = (state, false)
  udp_com_init true state opt =
      let (state', err) = udp_init state opt in
      if is_neg err then (state', false) else (state', true)

  unfoldable pub raw_send : UdpState S → Bytes → UdpState S × ℤ
  raw_send state buf =
      let (s, size) = sock_sendmsg state.udpsocket state.clientaddr buf in
      if has_sk state.udpsocket then (record state { udpsocket = s }, size) else (state, pos 0)

  -- What the loop of udp_send does with the result `s` of one raw_send.
  unfoldable pub send_step :
      ℕ → ℕ → UdpState S × ℤ → (UdpState S → ℕ → ℕ → Run (UdpState S × ℤ)) → Run (UdpState S × ℤ)
  send_step sz len (state, negsuc e) again = done (state, negsuc e)
  send_step sz len (state, pos zero) again = done (state, pos sz)
  send_step sz len (state, pos (suc n)) again = again state (sz + suc n) (sub32 len (suc n))

  unfoldable pub send_loop : ℕ → Bytes → ℕ → UdpState S → ℕ → ℕ → Run (UdpState S × ℤ)
  send_loop zero wire size state sz len = out_of_fuel
  send_loop (suc fuel) wire size state sz len = elim (sz == size) [
    | true ↦ done (state, pos sz)
    | false ↦ elim (load wire sz len) [
      | none ↦ fault
      | some buf ↦ send_step sz len (raw_send state buf) (send_loop fuel wire size)
    ]
  ]

  unfoldable pub udp_send : ℕ → UdpState S → Msg → Run (UdpState S × ℤ)
  udp_send fuel state msg = send_loop fuel (to_wire msg) msg.size state 0 msg.size

  unfoldable pub udp_com_send : ℕ → UdpState S → Msg → Run (UdpState S × ℤ)
  udp_com_send fuel state msg = udp_send fuel state msg

  -- import_single_range: the length that the kernel will take, or -EFAULT.
  unfoldable pub import_single_range : S → ℕ → Option ℕ
  import_single_range s len =
      let len' = if ltb max_rw_count len then max_rw_count else len in
      if access_ok s len' then some len' else none

  -- What was received is written to `wire` at `off`; `none` is a write outside of it.
  unfoldable pub keep_received : UdpState S → Bytes → ℕ → Received → Option (UdpState S × Bytes × ℤ)
  keep_received state wire off (failed e) = some (state, wire, negsuc e)
  keep_received state wire off (received bytes from) = do
    wire' ← store wire off bytes
    some (record state { clientaddr = from }, wire', pos (length bytes))

  -- The read itself, when the length is accepted.
  unfoldable pub recv_msg : UdpState S → Bytes → ℕ → ℕ → Option (UdpState S × Bytes × ℤ)
  recv_msg state wire off len =
      let (s, answer) = sock_recvmsg state.udpsocket len in
      keep_received (record state { udpsocket = s }) wire off answer

  unfoldable pub raw_recv : UdpState S → Bytes → ℕ → ℕ → Option (UdpState S × Bytes × ℤ)
  raw_recv state wire off len =
      if has_sk state.udpsocket
      then elim (import_single_range state.udpsocket len) [
        | none ↦ some (state, wire, efault)
        | some len' ↦ recv_msg state wire off len'
      ]
      else some (state, wire, pos 0)

  -- A step of the second loop of udp_recv. A result of zero reads again.
  unfoldable pub recv_step :
      ℕ
      → UdpState S × Bytes × ℤ
      → (UdpState S → Bytes → ℕ → Run (UdpState S × Bytes × ℤ))
      → Run (UdpState S × Bytes × ℤ)
  recv_step sz (state, wire, negsuc e) again = done (state, wire, negsuc e)
  recv_step sz (state, wire, pos n) again = again state wire (sz + n)

  unfoldable pub recv_loop : ℕ → ℕ → UdpState S → Bytes → ℕ → Run (UdpState S × Bytes × ℤ)
  recv_loop zero len state wire sz = out_of_fuel
  recv_loop (suc fuel) len state wire sz = elim (sz == len) [
    | true ↦ done (state, wire, pos sz)
    | false ↦ elim (raw_recv state wire sz (sub32 len sz)) [
      | none ↦ fault
      | some r ↦ recv_step sz r (recv_loop fuel len)
    ]
  ]

  -- The tests on the first read. `sz < sizeof msg->size` also takes `sz == 0`.
  unfoldable pub recv_first : ℕ → ℕ → UdpState S × Bytes × ℤ → Run (UdpState S × Bytes × ℤ)
  recv_first fuel allocated_size (state, wire, negsuc e) = done (state, wire, einval)
  recv_first fuel allocated_size (state, wire, pos sz) =
      let rest = recv_loop fuel (read32 wire 0) state wire sz in
      if ltb sz 4
      then done (state, wire, einval)
      else if ltb (read32 wire 0) sz
      then done (state, wire, einval)
      else if sz == 0
      then done (state, wire, pos 0)
      else if ltb allocated_size (read32 wire 0)
      then done (state, wire, einval)
      else rest

  -- udp_recv, with the message that its memory then is.
  unfoldable pub udp_recv : ℕ → UdpState S → Msg → Run (UdpState S × Bytes × ℤ)
  udp_recv fuel state msg = elim (raw_recv state (to_wire msg) 0 msg.allocated_size) [
    | none ↦ fault
    | some r ↦ recv_first fuel msg.allocated_size r
  ]

  abbrev pub as_msg : ℕ → Run (UdpState S × Bytes × ℤ) → Run (UdpState S × Msg × ℤ)
  as_msg allocated_size (done (state, wire, ret)) = done (state, of_wire allocated_size wire, ret)
  as_msg allocated_size fault = fault
  as_msg allocated_size out_of_fuel = out_of_fuel

  unfoldable pub udp_com_recv : ℕ → UdpState S → Msg → Run (UdpState S × Msg × ℤ)
  udp_com_recv fuel state msg = as_msg msg.allocated_size (udp_recv fuel state msg)
