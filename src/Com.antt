-- ===== src/Com.antt =====
-- com.c: the channel to userland, with check_msg on both ways. The operations of the transport,
-- `conf_com`, are those of com_udp.c. Work queues (queue_work, flush_workqueue) run their work as
-- it comes: a call of `com_recv` is one run of the queued function.
use usbq_core.Msg.{data_type, alloc_msg, check_msg, Kmalloc, Msg}
use usbq_core.Udp.{
  udp_com_init, udp_com_send, udp_com_recv, done, udp_close, UdpOpt, UdpState, Run, Net,
}
pub mod Deliver
pub mod Init
pub mod Calling
use usbq_core.Prelude.{
  Bool, Option, einval, false, if◌then◌else◌, is_neg, is_nonzero, none, not, set, some, ℕ, ℤ, ◌>>=◌,
  ◌>>◌,
}

abbrev pub max_size_msg : ℕ
max_size_msg = 16000

-- com_t: the receive buffer, and the state of the transport with whether the pointer is set.
pub record Com (S : Type 0) : Type 0 where
  pub msg : Msg
  pub state : UdpState S
  pub has_state : Bool

module _ {S : Type 0} (net : Net S) where
  -- What the callback is given, if it is called.
  unfoldable pub com_recv_result : UdpState S × Msg × ℤ → Option Msg
  com_recv_result (state, msg, sz) =
      if is_neg sz
      then none
      else if not (check_msg msg)
      then none
      else if is_nonzero sz
      then some msg
      else none

  abbrev pub recv_into : Com S → Run (UdpState S × Msg × ℤ) → Run (Com S × Option Msg)
  recv_into channel (done (state, msg, sz)) =
      done (record channel { msg = msg; state = state }, com_recv_result (state, msg, sz))
  recv_into channel Run.fault = Run.fault
  recv_into channel Run.out_of_fuel = Run.out_of_fuel

  unfoldable pub com_recv : ℕ → Com S → Run (Com S × Option Msg)
  com_recv fuel channel = recv_into channel (udp_com_recv net fuel channel.state channel.msg)

  unfoldable pub com_send : ℕ → UdpState S → Msg → Run (UdpState S × ℤ)
  com_send fuel state msg =
      if not (check_msg msg) then done (state, einval) else udp_com_send net fuel state msg

  -- `channel->state < 0` compares a pointer, and is never true.
  abbrev pub pointer_is_neg : Bool → Bool
  pointer_is_neg set = false

  -- `com_ok` and `state_ok` say whether kmalloc gave the com_t and the state of the transport. The
  -- outer `none` is a fault, the inner one is NULL.
  unfoldable pub com_init : Kmalloc → Bool → Bool → UdpState S → UdpOpt → Option (Option (Com S))
  com_init kmalloc com_ok state_ok blank opt =
      let (state, set) = udp_com_init net state_ok blank opt in
      if not com_ok
      then some none
      else alloc_msg kmalloc max_size_msg data_type >>= elim [
        | none ↦ some none
        | some msg ↦
            if pointer_is_neg set
            then some none
            else some (some (record { msg = msg; state = state; has_state = set }))
      ]

  unfoldable pub com_close : Com S → UdpState S
  com_close channel = udp_close net channel.state
