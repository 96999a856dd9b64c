-- ===== src/Tests/Network.antt =====
-- The network: the theorems of Udp and Com at work.
use usbq_core.Com.Init.{com_init-cases}
use usbq_core.Msg.Alloc.{IsFresh}
use usbq_core.Udp.Send.{udp_send-Sent}
use usbq_core.Msg.{data_type, alloc_msg}
use usbq_core.Tests.Data.{
  zeros-Allocates, data_msg-Fits, zeros, socket-Delivers, idle, data_msg, socket,
}
use usbq_core.Udp.Send.{Sent}
use usbq_core.Udp.Recv.{udp_recv-Safe, Safe, Bounded}
use usbq_core.Udp.{udp_com_init, udp_send, to_wire, received, udp_recv, failed, UdpOpt, Received}
use usbq_core.Com.{max_size_msg, com_recv, Com, com_init}
use usbq_core.Com.Deliver.{com_recv-Delivered, Delivered}
use usbq_core.Prelude.{Bytes, ap, arith, false, length, none, some, true, ℕ, ◌≡◌, ◌⊎◌}

udp_send-Sent_example :
    Sent socket
      (λ s. s)
      socket-Delivers
      (to_wire data_msg)
      20
      idle
      0
      (udp_send socket 21 idle data_msg)
udp_send-Sent_example =
    udp_send-Sent socket (λ s. s) socket-Delivers 21 idle data_msg data_msg-Fits (omega arith)

length_received : Received → ℕ
length_received (failed n) = 0
length_received (received bytes from) = length bytes

socket-Bounded : Bounded socket
unfolding length_received
socket-Bounded s s' len bytes from e =
    let count : 0 ≡ length bytes = ap (λ p. length_received p.1) e in omega (arith, count)

udp_recv-Safe_example : Safe socket socket-Bounded 6 24 (udp_recv socket 5 idle data_msg)
udp_recv-Safe_example =
    udp_recv-Safe socket socket-Bounded 5 idle data_msg (omega arith) (omega arith)

abbrev channel : Com Bytes
channel = record { msg = data_msg; state = idle; has_state = true }

com_recv-Delivered_example : Delivered socket socket-Bounded (com_recv socket 5 channel)
com_recv-Delivered_example =
    com_recv-Delivered socket socket-Bounded 5 channel
      (record { room = omega arith; small = omega arith })

abbrev options : UdpOpt
options = record { port = 64240; addr = 1; connect = 1 }

com_init-cases_example :
    ((com_init socket zeros true true idle options ≡ some none)
      × ((true ≡ false) ⊎ (alloc_msg zeros max_size_msg data_type ≡ some none)))
    ⊎ ((channel : Com Bytes) × (com_init socket zeros true true idle options ≡ some (some channel))
        × (true ≡ true)
        × IsFresh max_size_msg data_type channel.msg
        × (channel.has_state ≡ (udp_com_init socket true idle options).1))
com_init-cases_example = com_init-cases socket zeros zeros-Allocates true true idle options
