-- ===== src/Udp/Send.antt =====
-- udp_send of com_udp.c and the bytes that go out.
use usbq_core.Msg.Copy.{Fits}
use usbq_core.Msg.{Msg}
use usbq_core.Udp.{
  udp_send, to_wire, send_step, done, Run, UdpState, Addr, send_loop, raw_send, Net,
}
use usbq_core.Prelude.{
  Bool-cases, Bytes, append-nil, append_assoc, arith, drop, drop-add, inl, inr, le32, length,
  length-drop, length-take, load-ok, negsuc, pos, refl, sub32, suc, sym, take, take-add, take-take,
  word, zero, ℕ, ℤ, ◌++◌, ◌+◌, ◌<◌, ◌==◌, ◌∙◌, ◌≡◌, ◌≤◌,
}

-- The memory of a message from its size on.
pub length-to_wire : (m : Msg) → length (to_wire m) ≡ length m.body + 8
unfolding to_wire le32
length-to_wire m = omega arith

-- What udp_send relies on: the socket accepts at most the bytes that it is offered, in order, and
-- none when it fails. `sent` is all that a socket has accepted so far.
pub record Delivers {S : Type 0} (net : Net S) (sent : S → Bytes) : Type 0 where
  pub accepts :
      (s s' : S) (a : Addr) (buf : Bytes) (n : ℕ)
      → net.sock_sendmsg s a buf ≡ (s', pos n)
      → (n ≤ length buf) × (sent s' ≡ sent s ++ take n buf)
  pub refuses :
      (s s' : S) (a : Addr) (buf : Bytes) (e : ℕ)
      → net.sock_sendmsg s a buf ≡ (s', negsuc e)
      → sent s' ≡ sent s

module _ {S : Type 0} (net : Net S) (sent : S → Bytes) (ok : Delivers net sent) where
  -- The `n` bytes of `wire` from `sz` on have gone out.
  abbrev pub Out : Bytes → UdpState S → ℕ → ℕ → UdpState S → Type 0
  Out wire before sz n after = sent after.udpsocket ≡ sent before.udpsocket ++ take n (drop sz wire)

  -- A run that returned: a count says what has gone out, and an error leaves a prefix sent.
  abbrev pub Sent : Bytes → ℕ → UdpState S → ℕ → Run (UdpState S × ℤ) → Type 0
  Sent wire size before sz (done (after, pos r)) =
      (n : ℕ) × (r ≡ sz + n) × (r ≤ size) × Out wire before sz n after
  Sent wire size before sz (done (after, negsuc e)) =
      (n : ℕ) × (sz + n ≤ size) × Out wire before sz n after
  Sent wire size before sz Run.fault = ⊥
  Sent wire size before sz Run.out_of_fuel = ⊥

  -- The result of one raw_send of `buf`.
  abbrev Offer : UdpState S → Bytes → UdpState S × ℤ → Type 0
  Offer before buf (after, pos n) =
      (n ≤ length buf) × (sent after.udpsocket ≡ sent before.udpsocket ++ take n buf)
  Offer before buf (after, negsuc e) = sent after.udpsocket ≡ sent before.udpsocket

  raw_send-Offer : (state : UdpState S) (buf : Bytes) → Offer state buf (raw_send net state buf)
  unfolding raw_send
  raw_send-Offer state buf = elim (Bool-cases (net.has_sk state.udpsocket)) [
    | inl open_ ↦ rw open_ (answered (net.sock_sendmsg state.udpsocket state.clientaddr buf) refl)
    | inr closed ↦ rw closed (omega arith, sym (append-nil (sent state.udpsocket)))
  ]
    where
      answered :
          (r : S × ℤ)
          → net.sock_sendmsg state.udpsocket state.clientaddr buf ≡ r
          → Offer state buf (record state { udpsocket = r.0 }, r.1)
      answered (s, pos n) e = ok.accepts state.udpsocket s state.clientaddr buf n e
      answered (s, negsuc n) e = ok.refuses state.udpsocket s state.clientaddr buf n e

  module _ (wire : Bytes) (size : ℕ) (before : UdpState S) (sz : ℕ) where
    Out-add :
        (k n : ℕ) (middle after : UdpState S)
        → Out wire before sz k middle
        → Out wire middle (sz + k) n after
        → Out wire before sz (k + n) after
    Out-add k n middle after out later =
        later
        ∙ rw (out, take-add k n (drop sz wire), drop-add sz k wire)
            (append_assoc (sent before.udpsocket) (take k (drop sz wire))
              (take n (drop k (drop sz wire))))

    -- What a later run adds to what has gone out before.
    Sent-add :
        (k : ℕ) (middle : UdpState S) (r : Run (UdpState S × ℤ))
        → Out wire before sz k middle
        → Sent wire size middle (sz + k) r
        → Sent wire size before sz r
    Sent-add k middle (done (after, pos r)) out (n, e, h, later) =
        (k + n, omega arith, h, Out-add k n middle after out later)
    Sent-add k middle (done (after, negsuc r)) out (n, h, later) =
        (k + n, omega arith, Out-add k n middle after out later)
    Sent-add k middle Run.fault out later = later
    Sent-add k middle Run.out_of_fuel out later = later

    send_step-Sent :
        (len : ℕ) (r : UdpState S × ℤ) (again : UdpState S → ℕ → ℕ → Run (UdpState S × ℤ))
        → sz + len ≡ size
        → size < word
        → Offer before (take len (drop sz wire)) r
        → len ≤ length (drop sz wire)
        → ((middle : UdpState S) (n : ℕ)
            → n < len
            → Sent wire size middle (sz + suc n) (again middle (sz + suc n) (sub32 len (suc n))))
        → Sent wire size before sz (send_step net sz len r again)
    unfolding send_step
    send_step-Sent len (after, negsuc e) again total small offer fits rest =
        (0, omega arith, offer ∙ sym (append-nil (sent before.udpsocket)))
    send_step-Sent len (after, pos zero) again total small offer fits rest =
        (0, omega arith, omega arith, offer.1)
    send_step-Sent len (after, pos (suc n)) again total small offer fits rest =
        let short : suc n ≤ len = omega (arith, offer.0, length-take len (drop sz wire)) in
        Sent-add (suc n) after _ (rw (take-take (suc n) len (drop sz wire) short) at offer.1)
          (rest after n short)

  send_loop-Sent :
      (fuel : ℕ) (wire : Bytes) (size : ℕ) (state : UdpState S) (sz len : ℕ)
      → sz + len ≡ size
      → size ≤ length wire
      → size < word
      → len < fuel
      → Sent wire size state sz (send_loop net fuel wire size state sz len)
  unfolding send_loop
  send_loop-Sent zero wire size state sz len e fits small enough = absurd (omega arith)
  send_loop-Sent (suc fuel) wire size state sz len e fits small enough =
      elim (Bool-cases (sz == size)) [
        | inl ended ↦
            rw (ended, Sent) (0, omega arith, omega arith, sym (append-nil (sent state.udpsocket)))
        | inr more ↦
            rw (more, Sent, load-ok wire sz len (omega arith))
              (send_step-Sent wire size state sz len (raw_send net state (take len (drop sz wire)))
                (send_loop net fuel wire size) e small
                (raw_send-Offer state (take len (drop sz wire)))
                (omega (arith, length-drop sz wire))
                λ middle n h.
                  send_loop-Sent fuel wire size middle (sz + suc n) (sub32 len (suc n))
                    (omega arith) fits small (omega arith))
      ]

  -- Given as much fuel as the message has bytes and one round more, udp_send returns, for any
  -- socket that takes bytes in order. When it returns a count, exactly the first so many bytes of
  -- the message have gone out, all of them or fewer if the socket took none at some point; when it
  -- returns an error, some first part of the message has gone out. It never reads outside of it.
  pub udp_send-Sent :
      (fuel : ℕ) (state : UdpState S) (m : Msg)
      → Fits m
      → m.size < fuel
      → Sent (to_wire m) m.size state 0 (udp_send net fuel state m)
  unfolding udp_send
  udp_send-Sent fuel state m f enough =
      send_loop-Sent fuel (to_wire m) m.size state 0 m.size (omega arith)
        (omega (arith, length-to_wire m, f.within)) (omega (arith, f.within, f.small)) enough
