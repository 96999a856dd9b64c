-- ===== src/Udp/Progress.antt =====
-- udp_recv of com_udp.c returns when its socket makes progress.
use usbq_core.Msg.{Msg}
use usbq_core.Udp.{
  Addr, Net, Received, Run, UdpState, done, failed, import_single_range, keep_received,
  max_rw_count, raw_recv, received, recv_first, recv_loop, recv_msg, recv_step, to_wire, udp_recv,
}
use usbq_core.Udp.Send.{length-to_wire}
use usbq_core.Prelude.{
  Bool, Bool-cases, Bytes, Option, ap, arith, false, if◌then◌else◌, inl, inr, le_trans, length,
  length-overwrite, ltb, negsuc, none, pos, read32, refl, some, store-ok, sub32, suc, true, word,
  zero, ℕ, ℤ, ◌+◌, ◌-◌, ◌<◌, ◌==◌, ◌∙◌, ◌≡◌, ◌≤◌, ◌⊎◌,
}

-- A socket that is there, accepts its buffer, and when it gives anything, gives at least one byte
-- of what it was asked for and no more.
pub record Progresses {S : Type 0} (net : Net S) : Type 0 where
  pub present : (s : S) → net.has_sk s ≡ true
  pub gives :
      (s s' : S) (len : ℕ) (bytes : Bytes) (from : Addr)
      → net.sock_recvmsg s len ≡ (s', received bytes from)
      → 1 ≤ len
      → (1 ≤ length bytes) × (length bytes ≤ len)

-- The run ended with a value.
abbrev pub Returned : {A : Type 0} → Run A → Type 0
Returned {A = A} r = (a : A) × (r ≡ done a)

-- An early return, unless the test fails.
early_return :
    {A : Type 0} (b : Bool) (x : A) (r : Run A)
    → (b ≡ false → Returned r)
    → Returned (if b then done x else r)
early_return true x r rest = (x, refl)
early_return false x r rest = rest refl

module _ {S : Type 0} (net : Net S) (p : Progresses net) where
  -- A read that may go on has stored at least one byte.
  abbrev Read : Bytes → ℕ → Option (UdpState S × Bytes × ℤ) → Type 0
  Read wire len none = ⊥
  Read wire len (some (state, wire', pos n)) = (1 ≤ n) × (n ≤ len) × (length wire' ≡ length wire)
  Read wire len (some (state, wire', negsuc e)) = length wire' ≡ length wire

  keep_received-Read :
      (state : UdpState S) (wire : Bytes) (off len : ℕ) (answer : Received)
      → off + len ≤ length wire
      → ((bytes : Bytes) (from : Addr)
          → answer ≡ received bytes from
          → (1 ≤ length bytes) × (length bytes ≤ len))
      → Read wire len (keep_received net state wire off answer)
  unfolding keep_received
  keep_received-Read state wire off len (failed e) fits some_bytes = refl
  keep_received-Read state wire off len (received bytes from) fits some_bytes =
      let (one, le) = some_bytes bytes from refl in
      rw (store-ok wire off bytes (omega arith))
        (one, le, length-overwrite wire off bytes (omega arith))

  recv_msg-Read :
      (state : UdpState S) (wire : Bytes) (off n len : ℕ)
      → 1 ≤ n
      → n ≤ len
      → off + len ≤ length wire
      → Read wire len (recv_msg net state wire off n)
  unfolding recv_msg
  recv_msg-Read state wire off n len one h fits = answered (net.sock_recvmsg state.udpsocket n) refl
    where
      answered :
          (r : S × Received)
          → net.sock_recvmsg state.udpsocket n ≡ r
          → Read wire len (keep_received net (record state { udpsocket = r.0 }) wire off r.1)
      answered (s, answer) e =
          keep_received-Read (record state { udpsocket = s }) wire off len answer fits
            λ bytes from q.
              let (got, le) = p.gives state.udpsocket s n bytes from (e ∙ ap (λ a. (s, a)) q) one in
              (got, le_trans le h)

  import_single_range-cases :
      (s : S) (len : ℕ)
      → 1 ≤ len
      → (import_single_range net s len ≡ none)
        ⊎ ((n : ℕ) × (import_single_range net s len ≡ some n) × (1 ≤ n) × (n ≤ len))
  unfolding import_single_range
  import_single_range-cases s len one =
      let n = if ltb max_rw_count len then max_rw_count else len in
      let h : (1 ≤ n) × (n ≤ len) = (ground arith, ground arith) in
      elim (Bool-cases (net.access_ok s n)) [ inl e ↦ inr (n, rw e, h.0, h.1) | inr e ↦ inl (rw e) ]

  raw_recv-Read :
      (state : UdpState S) (wire : Bytes) (off len : ℕ)
      → 1 ≤ len
      → off + len ≤ length wire
      → Read wire len (raw_recv net state wire off len)
  unfolding raw_recv
  raw_recv-Read state wire off len one fits =
      rw (p.present state.udpsocket) (elim (import_single_range-cases state.udpsocket len one) [
        | inl e ↦ rw (e, Read) refl
        | inr (n, e, one', h) ↦ rw (e, Read) (recv_msg-Read state wire off n len one' h fits)
      ])

  step_returns :
      (wire : Bytes) (sz len : ℕ) (r : Option (UdpState S × Bytes × ℤ))
      (again : UdpState S → Bytes → ℕ → Run (UdpState S × Bytes × ℤ))
      → Read wire (len - sz) r
      → ((state : UdpState S) (wire' : Bytes) (n : ℕ)
          → 1 ≤ n
          → n ≤ len - sz
          → length wire' ≡ length wire
          → Returned (again state wire' (sz + n)))
      → Returned (elim r [ none ↦ Run.fault | some r' ↦ recv_step net sz r' again ])
  unfolding recv_step
  step_returns wire sz len none again read rest = absurd read
  step_returns wire sz len (some (state, wire', pos n)) again (one, le, same) rest =
      rest state wire' n one le same
  step_returns wire sz len (some (state, wire', negsuc e)) again read rest = (_, refl)

  -- Each round reads a byte at least.
  recv_loop-Returned :
      (fuel len : ℕ) (state : UdpState S) (wire : Bytes) (sz : ℕ)
      → sz ≤ len
      → len - sz < fuel
      → len ≤ length wire
      → length wire < word
      → Returned (recv_loop net fuel len state wire sz)
  unfolding recv_loop
  recv_loop-Returned zero len state wire sz h enough fits small = absurd (omega arith)
  recv_loop-Returned (suc fuel) len state wire sz h enough fits small =
      elim (Bool-cases (sz == len)) [
        | inl whole ↦ rw (whole, Returned, recv_loop) (_, refl)
        | inr more ↦
            let left : sub32 len sz ≡ len - sz = omega arith in
            let one : 1 ≤ len - sz = ground (arith, more, h) in
            rw (more, left, Returned, recv_loop)
              (step_returns wire sz len (raw_recv net state wire sz (len - sz))
                (recv_loop net fuel len) (raw_recv-Read state wire sz (len - sz) one (omega arith))
                λ state' wire' n one' le same.
                  recv_loop-Returned fuel len state' wire' (sz + n) (omega arith) (omega arith)
                    (omega (arith, same)) (omega (arith, same)))
      ]

  recv_first-Returned :
      (fuel allocated_size : ℕ) (r : UdpState S × Bytes × ℤ) (wire : Bytes)
      → allocated_size < fuel
      → allocated_size ≤ length wire
      → length wire < word
      → Read wire allocated_size (some r)
      → Returned (recv_first net fuel allocated_size r)
  unfolding recv_first
  recv_first-Returned fuel allocated_size (state, wire', negsuc e) wire enough fits small read =
      (_, refl)
  recv_first-Returned fuel allocated_size (state, wire', pos sz) wire enough fits small read =
      early_return (ltb sz 4) _ _ λ h1. early_return (ltb (read32 wire' 0) sz) _ _ λ h2.
        early_return (sz == 0) _ _ λ h3.
          early_return (ltb allocated_size (read32 wire' 0)) _ _ λ h4.
            let le : read32 wire' 0 ≤ allocated_size = ground (arith, h4) in
            let ge : sz ≤ read32 wire' 0 = ground (arith, h2) in
            recv_loop-Returned fuel (read32 wire' 0) state wire' sz ge (omega (arith, le, enough))
              (omega (arith, le, fits, read)) (omega (arith, read, small))

  -- If the socket is there and gives at least a byte, and no more than it was asked for, each time
  -- that it gives anything, then udp_recv, on a message with memory for its allocated size, returns
  -- after no more rounds of its loop than that size: a count or an error, and it never leaves the
  -- memory.
  pub udp_recv-Returned :
      (fuel : ℕ) (state : UdpState S) (m : Msg)
      → 1 ≤ m.allocated_size
      → m.allocated_size < fuel
      → m.allocated_size ≤ length m.body
      → length m.body + 8 < word
      → Returned (udp_recv net fuel state m)
  unfolding udp_recv
  udp_recv-Returned fuel state m one enough fits small =
      first (raw_recv net state (to_wire m) 0 m.allocated_size)
        (raw_recv-Read state (to_wire m) 0 m.allocated_size one (omega (arith, length-to_wire m)))
    where
      first :
          (r : Option (UdpState S × Bytes × ℤ))
          → Read (to_wire m) m.allocated_size r
          → Returned
              (elim r [ none ↦ Run.fault | some r' ↦ recv_first net fuel m.allocated_size r' ])
      first none read = absurd read
      first (some r) read =
          recv_first-Returned fuel m.allocated_size r (to_wire m) enough
            (omega (arith, length-to_wire m)) (omega (arith, length-to_wire m)) read
