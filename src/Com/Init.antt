-- ===== src/Com/Init.antt =====
-- com_init of com.c.
use usbq_core.Com.{Com, max_size_msg, com_init}
use usbq_core.Msg.Alloc.{alloc_msg-IsFresh, IsFresh, Allocates}
use usbq_core.Msg.{data_type, alloc_msg, Kmalloc}
use usbq_core.Udp.{udp_com_init, UdpOpt, UdpState, Net}
use usbq_core.Prelude.{Bool, arith, false, inl, inr, none, refl, some, true, ◌≡◌, ◌⊎◌}

module _ {S : Type 0} (net : Net S) (kmalloc : Kmalloc) (gives : Allocates kmalloc) where
  -- If kmalloc gives as many bytes as it is asked for, com_init never faults, and gives NULL
  -- exactly when the com_t or its buffer could not be allocated. A com_t that it gives has a buffer
  -- of 16000 bytes, and its transport is whatever udp_com_init answered: also NULL, when the socket
  -- could not be created or bound.
  pub com_init-cases :
      (com_ok state_ok : Bool) (blank : UdpState S) (opt : UdpOpt)
      → (com_init net kmalloc com_ok state_ok blank opt ≡ some none)
          × ((com_ok ≡ false) ⊎ (alloc_msg kmalloc max_size_msg data_type ≡ some none))
        ⊎ ((channel : Com S) × (com_init net kmalloc com_ok state_ok blank opt
              ≡ some (some channel))
            × (com_ok ≡ true)
            × IsFresh max_size_msg data_type channel.msg
            × (channel.has_state ≡ (udp_com_init net state_ok blank opt).1))
  unfolding com_init
  com_init-cases false state_ok blank opt = inl (refl, inl refl)
  com_init-cases true state_ok blank opt =
      elim (alloc_msg-IsFresh kmalloc gives max_size_msg data_type (omega arith) (omega arith)) [
        | inl (failed, null) ↦ inl (rw null, inr null)
        | inr (m, got, fresh) ↦ inr (
          record {
            msg = m;
            state = (udp_com_init net state_ok blank opt).0;
            has_state = (udp_com_init net state_ok blank opt).1;
          },
          rw got,
          refl,
          fresh,
          refl,
        )
      ]
