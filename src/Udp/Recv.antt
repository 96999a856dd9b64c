-- ===== src/Udp/Recv.antt =====
-- udp_recv of com_udp.c and the memory that it writes.
use usbq_core.Udp.Send.{length-to_wire}
use usbq_core.Msg.{Msg}
use usbq_core.Udp.{
  to_wire, max_rw_count, recv_msg, failed, recv_first, Received, import_single_range, done,
  received, Run, UdpState, recv_step, udp_recv, recv_loop, raw_recv, Addr, keep_received, Net,
}
use usbq_core.Prelude.{
  Bool-cases, Bytes, Option, ap, arith, if◌then◌else◌, inl, inr, le_trans, length, length-overwrite,
  ltb, negsuc, none, pos, read32, read32-take, refl, some, store-ok, sub32, suc, take,
  take-overwrite_at, take-take, word, zero, ℕ, ℤ, ◌+◌, ◌-◌, ◌<◌, ◌==◌, ◌∙◌, ◌≡◌, ◌≤◌, ◌⊎◌,
}

-- What udp_recv relies on: the socket stores no more bytes than it was offered room for.
abbrev pub Bounded : {S : Type 0} → Net S → Type 0
Bounded {S} net =
    (s s' : S) (len : ℕ) (bytes : Bytes) (from : Addr)
    → net.sock_recvmsg s len ≡ (s', received bytes from)
    → length bytes ≤ len

module _ {S : Type 0} (net : Net S) (bounded : Bounded net) where
  -- A read at `off` with room for `len` bytes changes memory from `off` on only, if at all.
  abbrev Got : Bytes → ℕ → ℕ → Option (UdpState S × Bytes × ℤ) → Type 0
  Got wire off len none = ⊥
  Got wire off len (some (state, wire', pos n)) =
      (n ≤ len) × (length wire' ≡ length wire) × (take off wire' ≡ take off wire)
  Got wire off len (some (state, wire', negsuc e)) = length wire' ≡ length wire

  keep_received-Got :
      (state : UdpState S) (wire : Bytes) (off len : ℕ) (answer : Received)
      → off + len ≤ length wire
      → ((bytes : Bytes) (from : Addr) → answer ≡ received bytes from → length bytes ≤ len)
      → Got wire off len (keep_received net state wire off answer)
  unfolding keep_received
  keep_received-Got state wire off len (failed e) fits short = refl
  keep_received-Got state wire off len (received bytes from) fits short =
      let h = short bytes from refl in
      rw (store-ok wire off bytes (omega arith)) (
        h,
        length-overwrite wire off bytes (omega arith),
        take-overwrite_at off wire bytes (omega arith),
      )

  recv_msg-Got :
      (state : UdpState S) (wire : Bytes) (off n len : ℕ)
      → n ≤ len
      → off + len ≤ length wire
      → Got wire off len (recv_msg net state wire off n)
  unfolding recv_msg
  recv_msg-Got state wire off n len h fits = answered (net.sock_recvmsg state.udpsocket n) refl
    where
      answered :
          (r : S × Received)
          → net.sock_recvmsg state.udpsocket n ≡ r
          → Got wire off len (keep_received net (record state { udpsocket = r.0 }) wire off r.1)
      answered (s, answer) e =
          keep_received-Got (record state { udpsocket = s }) wire off len answer fits
            λ bytes from p.
              le_trans (bounded state.udpsocket s n bytes from (e ∙ ap (λ a. (s, a)) p)) h

  import_single_range-le :
      (s : S) (len : ℕ)
      → (import_single_range net s len ≡ none)
        ⊎ ((n : ℕ) × (import_single_range net s len ≡ some n) × (n ≤ len))
  unfolding import_single_range
  import_single_range-le s len =
      let n = if ltb max_rw_count len then max_rw_count else len in
      let h : n ≤ len = ground arith in
      elim (Bool-cases (net.access_ok s n)) [ inl e ↦ inr (n, rw e, h) | inr e ↦ inl (rw e) ]

  raw_recv-Got :
      (state : UdpState S) (wire : Bytes) (off len : ℕ)
      → off + len ≤ length wire
      → Got wire off len (raw_recv net state wire off len)
  unfolding raw_recv
  raw_recv-Got state wire off len fits = elim (Bool-cases (net.has_sk state.udpsocket)) [
    | inl present ↦ rw present (elim (import_single_range-le state.udpsocket len) [
      | inl e ↦ rw (e, Got) refl
      | inr (n, e, h) ↦ rw (e, Got) (recv_msg-Got state wire off n len h fits)
    ])
    | inr absent ↦ rw absent (omega arith, refl, refl)
  ]

  -- What a run leaves: memory of the same length, and for a count, as many bytes as the size
  -- field says, which the buffer has room for.
  abbrev pub Safe : ℕ → ℕ → Run (UdpState S × Bytes × ℤ) → Type 0
  Safe allocated_size room (done (state, wire, pos n)) =
      (length wire ≡ room) × (n ≡ read32 wire 0) × (4 ≤ n) × (n ≤ allocated_size)
  Safe allocated_size room (done (state, wire, negsuc e)) = length wire ≡ room
  Safe allocated_size room Run.fault = ⊥
  Safe allocated_size room Run.out_of_fuel = Unit

  recv_step-Safe :
      (wire : Bytes) (sz len allocated_size room : ℕ) (r : UdpState S × Bytes × ℤ)
      (again : UdpState S → Bytes → ℕ → Run (UdpState S × Bytes × ℤ))
      → length wire ≡ room
      → sz ≤ len
      → 4 ≤ sz
      → read32 wire 0 ≡ len
      → Got wire sz (len - sz) (some r)
      → ((state : UdpState S) (wire' : Bytes) (sz' : ℕ)
          → sz' ≤ len
          → 4 ≤ sz'
          → length wire' ≡ length wire
          → read32 wire' 0 ≡ len
          → Safe allocated_size room (again state wire' sz'))
      → Safe allocated_size room (recv_step net sz r again)
  unfolding recv_step
  recv_step-Safe wire sz len allocated_size room (state, wire', pos n) again l h four size got
        rest =
      rest state wire' (sz + n) (omega (arith, got.0)) (omega arith) got.1 (
        rw (← read32-take 4 0 wire' (omega arith), same_size)
          (read32-take 4 0 wire (omega arith) ∙ size))
    where
      same_size : take 4 wire' ≡ take 4 wire
      same_size = rw (← take-take 4 sz wire' four, got.2) (take-take 4 sz wire four)
  recv_step-Safe wire sz len allocated_size room (state, wire', negsuc n) again l h four size got
        rest =
      got ∙ l

  recv_read-Safe :
      (wire : Bytes) (sz len allocated_size room : ℕ) (r : Option (UdpState S × Bytes × ℤ))
      (again : UdpState S → Bytes → ℕ → Run (UdpState S × Bytes × ℤ))
      → length wire ≡ room
      → sz ≤ len
      → 4 ≤ sz
      → read32 wire 0 ≡ len
      → Got wire sz (len - sz) r
      → ((state : UdpState S) (wire' : Bytes) (sz' : ℕ)
          → sz' ≤ len
          → 4 ≤ sz'
          → length wire' ≡ length wire
          → read32 wire' 0 ≡ len
          → Safe allocated_size room (again state wire' sz'))
      → Safe allocated_size room (elim r [ none ↦ Run.fault | some r' ↦ recv_step net sz r' again ])
  recv_read-Safe wire sz len allocated_size room none again l h four size got rest = got
  recv_read-Safe wire sz len allocated_size room (some r) again l h four size got rest =
      recv_step-Safe wire sz len allocated_size room r again l h four size got rest

  recv_loop-Safe :
      (fuel len allocated_size room : ℕ) (state : UdpState S) (wire : Bytes) (sz : ℕ)
      → length wire ≡ room
      → sz ≤ len
      → 4 ≤ sz
      → len ≤ allocated_size
      → allocated_size ≤ room
      → room < word
      → read32 wire 0 ≡ len
      → Safe allocated_size room (recv_loop net fuel len state wire sz)
  unfolding recv_loop
  recv_loop-Safe zero len allocated_size room state wire sz l h four fits in_room small size = tt
  recv_loop-Safe (suc fuel) len allocated_size room state wire sz l h four fits in_room small size =
      elim (Bool-cases (sz == len)) [
        | inl ended ↦ rw (ended, Safe) (l, ground arith, four, omega arith)
        | inr more ↦
            rw (more, Safe)
              (recv_read-Safe wire sz len allocated_size room
                (raw_recv net state wire sz (sub32 len sz)) (recv_loop net fuel len) l h four size
                got
                λ state' wire' sz' h' four' same size'.
                  recv_loop-Safe fuel len allocated_size room state' wire' sz' (same ∙ l) h' four'
                    fits in_room small size')
      ]
    where
      left : sub32 len sz ≡ len - sz
      left = omega arith

      got : Got wire sz (len - sz) (raw_recv net state wire sz (sub32 len sz))
      got = rw left (raw_recv-Got state wire sz (len - sz) (omega arith))

  recv_first-Safe :
      (fuel allocated_size room : ℕ) (r : UdpState S × Bytes × ℤ) (wire : Bytes)
      → allocated_size ≤ room
      → room < word
      → length wire ≡ room
      → Got wire 0 allocated_size (some r)
      → Safe allocated_size room (recv_first net fuel allocated_size r)
  unfolding recv_first
  recv_first-Safe fuel allocated_size room (state, wire', negsuc e) wire fits small l got = got ∙ l
  recv_first-Safe fuel allocated_size room (state, wire', pos sz) wire fits small l got =
      let same : length wire' ≡ room = got.1 ∙ l in
      ground (arith, recv_loop-Safe fuel (read32 wire' 0) allocated_size room state wire' sz same)

  -- Whatever a socket gives that stores no more bytes than it has room for, udp_recv, for any
  -- number of rounds of its loop, on a message whose memory has its allocated size, never writes
  -- outside of the message, and when it returns a count, this is the value of the size field, at
  -- least 4 and at most the allocated size of the message. An error too leaves the memory as long
  -- as it was.
  pub udp_recv-Safe :
      (fuel : ℕ) (state : UdpState S) (m : Msg)
      → m.allocated_size ≤ length m.body
      → length m.body + 8 < word
      → Safe m.allocated_size (length m.body + 8) (udp_recv net fuel state m)
  unfolding udp_recv
  udp_recv-Safe fuel state m fits small =
      first (raw_recv net state (to_wire m) 0 m.allocated_size)
        (raw_recv-Got state (to_wire m) 0 m.allocated_size (omega (arith, length-to_wire m)))
    where
      first :
          (r : Option (UdpState S × Bytes × ℤ))
          → Got (to_wire m) 0 m.allocated_size r
          → Safe m.allocated_size
              (length m.body + 8)
              (elim r [ none ↦ Run.fault | some r' ↦ recv_first net fuel m.allocated_size r' ])
      first none got = got
      first (some r) got =
          recv_first-Safe fuel m.allocated_size (length m.body + 8) r (to_wire m) (omega arith)
            small (length-to_wire m) got
