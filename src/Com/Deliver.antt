-- ===== src/Com/Deliver.antt =====
-- com_recv of com.c and the messages that its callback gets.
use usbq_core.Com.{Com, com_recv, com_recv_result, recv_into}
use usbq_core.Msg.{Msg, check_msg, msg_diff_size}
use usbq_core.Msg.Check.{IsWellFormed, check_msg-IsWellFormed, management, usb_ack, usb_data}
use usbq_core.Msg.Copy.{Fits}
use usbq_core.Udp.{Net, Run, UdpState, as_msg, done, of_wire, udp_com_recv, udp_recv}
use usbq_core.Udp.Recv.{Bounded, Safe, udp_recv-Safe}
use usbq_core.Prelude.{
  Bytes, Option, arith, false, inl, inr, is_neg, length, length-drop, negsuc, none, pos, refl, some,
  subst, suc, true, word, zero, ℕ, ℤ, ◌+◌, ◌<◌, ◌≡◌, ◌≤◌, ◌⊎◌,
}

module _ {S : Type 0} (net : Net S) (bounded : Bounded net) where
  -- The buffer of a com_t, as com_init allocates it and as every reception leaves it.
  pub record IsBuffer (m : Msg) : Type 0 where
    pub room : m.allocated_size ≤ length m.body
    pub small : length m.body + 12 < word

  -- A message in the buffer whose size is within the buffer.
  kept_Fits : (m : Msg) → IsBuffer m → m.size ≤ m.allocated_size → IsWellFormed m → Fits m
  unfolding msg_diff_size
  kept_Fits m b h (management t s g) = ground (arith, b)
  kept_Fits m b h (usb_data t s e) = ground (arith, b)
  kept_Fits m b h (usb_ack t s e) = ground (arith, b)

  -- The callback is called with messages that are well formed and lie within their buffer.
  abbrev pub Delivered : Run (Com S × Option Msg) → Type 0
  Delivered (done (channel, none)) = IsBuffer channel.msg
  Delivered (done (channel, some m)) = IsBuffer channel.msg × IsWellFormed m × Fits m
  Delivered Run.fault = ⊥
  Delivered Run.out_of_fuel = Unit

  com_recv_result-cases :
      (state : UdpState S) (m : Msg) (sz : ℤ)
      → (com_recv_result net (state, m, sz) ≡ none)
        ⊎ ((com_recv_result net (state, m, sz) ≡ some m)
            × (check_msg m ≡ true)
            × (is_neg sz ≡ false))
  unfolding com_recv_result
  com_recv_result-cases state m (pos zero) = ground arith
  com_recv_result-cases state m (pos (suc n)) = ground arith
  com_recv_result-cases state m (negsuc n) = inl refl

  kept :
      (channel : Com S) (m : Msg) (state : UdpState S) (sz : ℤ)
      → IsBuffer m
      → (is_neg sz ≡ false → m.size ≤ m.allocated_size)
      → Delivered
          (done (record channel { msg = m; state = state }, com_recv_result net (state, m, sz)))
  kept channel m state sz b h = elim (com_recv_result-cases state m sz) [
    | inl nothing ↦ rw (nothing, Delivered) b
    | inr (given, valid, count) ↦
        let w = check_msg-IsWellFormed m valid in
        rw (given, Delivered) (b, w, kept_Fits m b (h count) w)
  ]

  -- Whatever comes over the network, with any number of rounds for the loop of udp_recv and a
  -- socket that stores no more bytes than it has room for, com_recv stays inside of its buffer, and
  -- the callback is only called with a message that is well formed and whose bytes lie within the
  -- buffer; the buffer serves for the next message.
  pub com_recv-Delivered :
      (fuel : ℕ) (channel : Com S) → IsBuffer channel.msg → Delivered (com_recv net fuel channel)
  unfolding com_recv udp_com_recv
  com_recv-Delivered fuel channel b =
      go (udp_recv net fuel channel.state channel.msg)
        (udp_recv-Safe net bounded fuel channel.state channel.msg b.room (omega (arith, b.small)))
    where
      buffer :
          (wire : Bytes)
          → length wire ≡ length channel.msg.body + 8
          → IsBuffer (of_wire channel.msg.allocated_size wire)
      buffer wire l =
          unfold of_wire in
          record {
            room = omega (arith, length-drop 8 wire, b.room);
            small = omega (arith, length-drop 8 wire, b.small);
          }

      go :
          (r : Run (UdpState S × Bytes × ℤ))
          → Safe net bounded channel.msg.allocated_size (length channel.msg.body + 8) r
          → Delivered (recv_into net channel (as_msg net channel.msg.allocated_size r))
      go (done (state, wire, pos n)) safe =
          kept channel (of_wire channel.msg.allocated_size wire) state (pos n) (buffer wire safe.0)
            (λ _. unfold of_wire in omega (arith, safe))
      go (done (state, wire, negsuc n)) safe =
          kept channel (of_wire channel.msg.allocated_size wire) state (negsuc n) (buffer wire safe)
            (λ e. cc)
      go Run.fault safe = safe
      go Run.out_of_fuel safe = tt

  -- A message that is given has as much memory as the buffer had.
  abbrev Sized : ℕ → Run (Com S × Option Msg) → Type 0
  Sized n (done (channel, none)) = Unit {0}
  Sized n (done (channel, some m)) = length m.body ≡ n
  Sized n Run.fault = Unit {0}
  Sized n Run.out_of_fuel = Unit {0}

  pub com_recv-length :
      (fuel : ℕ) (channel rest : Com S) (m : Msg)
      → IsBuffer channel.msg
      → com_recv net fuel channel ≡ done (rest, some m)
      → length m.body ≡ length channel.msg.body
  unfolding com_recv udp_com_recv
  com_recv-length fuel channel rest m b e = subst (Sized (length channel.msg.body)) e (
      go (udp_recv net fuel channel.state channel.msg)
        (udp_recv-Safe net bounded fuel channel.state channel.msg b.room (omega (arith, b.small))))
    where
      given :
          (state : UdpState S) (wire : Bytes) (sz : ℤ)
          → length wire ≡ length channel.msg.body + 8
          → Sized (length channel.msg.body) (
              done (
                record channel { msg = of_wire channel.msg.allocated_size wire; state = state },
                com_recv_result net (state, of_wire channel.msg.allocated_size wire, sz),
              ))
      given state wire sz l =
          elim (com_recv_result-cases state (of_wire channel.msg.allocated_size wire) sz) [
            | inl nothing ↦ rw (nothing, Sized) tt
            | inr (some_eq, _, _) ↦
                rw (some_eq, Sized) (unfold of_wire in omega (arith, length-drop 8 wire, l))
          ]

      go :
          (r : Run (UdpState S × Bytes × ℤ))
          → Safe net bounded channel.msg.allocated_size (length channel.msg.body + 8) r
          → Sized
              (length channel.msg.body)
              (recv_into net channel (as_msg net channel.msg.allocated_size r))
      go (done (state, wire, pos n)) safe = given state wire (pos n) (safe.0)
      go (done (state, wire, negsuc n)) safe = given state wire (negsuc n) safe
      go Run.fault safe = absurd safe
      go Run.out_of_fuel safe = tt
