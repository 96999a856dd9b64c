-- ===== src/Driver/Dispatching.antt =====
-- The disconnection of the device: driver_disconnect of driver.c.
use usbq_core.Action.{Act, Ok, Ok-map, lift, ▷-Ok, ◌▷◌}
use usbq_core.Driver.Cleanup.{clean_endpoints-Accounted}
use usbq_core.Driver.Dispatch.{
  announce_reset, disconnect_bound, disconnect_interfaces, driver_disconnect, ubq_disable_device,
}
use usbq_core.Driver.State.{DriverState, clean_endpoints}
use usbq_core.Endpoint.{Kernel, memory, release, send_userland}
use usbq_core.Msg.{
  Msg, alloc_msg_management, management_type, msg_diff_size, reset, set_management_type,
}
use usbq_core.Msg.Alloc.{IsFresh, alloc_msg-IsFresh}
use usbq_core.Part.{free_msg, with_msg}
use usbq_core.Part.Accounts.{Gives, Grew, world-Grew}
use usbq_core.Part.Cleanup.{objects}
use usbq_core.Prelude.{
  Bool-cases, Option, [], add32, arith, false, inl, inr, le32, none, refl, some, store-ok, suc,
  zero, ℕ, ◌+◌, ◌==◌, ◌≡◌, ◌≢◌,
}

module _ {W : Type 0} (k : Kernel W) (gives : Gives k) where
  -- The notification, and what it leaves: the endpoints and the count.
  abbrev Noted : DriverState W → Option Msg → DriverState W → Type 0
  Noted s none s' = Grew s 0 s'
  Noted s (some m) s' = Grew s 1 s' × IsFresh 0 management_type m

  with_msg-Noted :
      (n : ℕ) (s : DriverState W)
      → Ok (Noted s) (with_msg k n (λ kmalloc. alloc_msg_management kmalloc 0) s)
  unfolding with_msg alloc_msg_management
  with_msg-Noted n s =
      elim (alloc_msg-IsFresh (memory k s.heap.world) (gives s.heap.world) 0 management_type
        (omega arith) (omega arith)) [
          | inl (nothing, e) ↦ rw (e, Ok, with_msg, lift) (world-Grew _ _)
          | inr (m, e, fresh) ↦
              rw (e, Ok, with_msg, lift)
                (
                  record {
                    own_eq = refl;
                    same = refl;
                    live_eq = omega arith;
                    next_le = omega arith;
                  },
                  fresh,
                )
        ]

  announce_reset-Grew :
      (m : Option Msg) (s s' : DriverState W)
      → Noted s m s'
      → Ok (λ _ s'. Grew s 0 s') (announce_reset k m s')
  unfolding announce_reset free_msg release set_management_type msg_diff_size le32 send_userland
  announce_reset-Grew none s s' g = g
  announce_reset-Grew (some m) s s' (g, fresh) =
      rw (store-ok m.body 0 (le32 reset) (omega (arith, fresh.body_length)), announce_reset, lift)
        (record {
          own_eq = g.own_eq;
          same = g.same;
          live_eq = omega (arith, g.live_eq);
          next_le = omega (arith, g.next_le);
        })

  -- If kmalloc gives as many bytes as it is asked for and what is allocated besides endpoints and
  -- requests counts `n`, then after driver_disconnect of a device that was there, the driver is not
  -- initialised, no endpoint is left, and `n` objects are allocated; it never leaves the memory.
  pub driver_disconnect-Accounted :
      (n : ℕ) (s : DriverState W)
      → s.own.init ≢ 0
      → s.heap.live ≡ objects s.eplist + n
      → Ok
          (λ _ s'. (s'.own.init ≡ 0) × (s'.eplist ≡ []) × (s'.heap.live ≡ n))
          (driver_disconnect k s)
  unfolding driver_disconnect
  driver_disconnect-Accounted n s on e =
      let on' : (s.own.init == 0) ≡ false = ground (arith, on) in
      rw (on', driver_disconnect)
        (▷-Ok Done _ notify _ s refl
          (▷-Ok (λ _ s'. Grew s 0 s') _
            (with_msg k (add32 (add32 0 (msg_diff_size management_type)) 4)
              (λ kmalloc. alloc_msg_management kmalloc 0))
            (announce_reset k) s refl (with_msg-Noted _ s) (λ m s' g. announce_reset-Grew m s s' g))
          (λ _ s' g.
            ▷-Ok Done _ (clean_endpoints k) _ s' refl
              (clean_endpoints-Accounted k n s' (rw g.same (omega (arith, g.live_eq, e))))
              (λ _ s'' (nil, live, _). (refl, nil, live))))
    where
      Done : Unit {0} → DriverState W → Type 0
      Done _ s' = (s'.own.init ≡ 0) × (s'.eplist ≡ []) × (s'.heap.live ≡ n)

      notify : Act (DriverState W) (Unit {0})
      notify =
          with_msg k (add32 (add32 0 (msg_diff_size management_type)) 4)
            (λ kmalloc. alloc_msg_management kmalloc 0)
          ▷ announce_reset k

  -- Without endpoints, driver_disconnect only sends its message.
  driver_disconnect-empty :
      (n : ℕ) (s : DriverState W)
      → s.eplist ≡ []
      → s.heap.live ≡ n
      → Ok (λ _ s'. (s'.eplist ≡ []) × (s'.heap.live ≡ n)) (driver_disconnect k s)
  unfolding driver_disconnect objects
  driver_disconnect-empty n s nil live = elim (Bool-cases (s.own.init == 0)) [
    | inl off ↦ rw (off, driver_disconnect) (nil, live)
    | inr on ↦
        Ok-map _ (λ _ s'. (s'.eplist ≡ []) × (s'.heap.live ≡ n)) (driver_disconnect k s)
          (λ _ s' (_, nil', live'). (nil', live'))
          (driver_disconnect-Accounted n s (ground (arith, on)) (rw nil (omega (arith, live))))
  ]

  disconnect_interfaces-empty :
      (m n : ℕ) (s : DriverState W)
      → s.eplist ≡ []
      → s.heap.live ≡ n
      → Ok (λ _ s'. (s'.eplist ≡ []) × (s'.heap.live ≡ n)) (disconnect_interfaces k m s)
  unfolding disconnect_interfaces
  disconnect_interfaces-empty zero n s nil live = (nil, live)
  disconnect_interfaces-empty (suc m) n s nil live =
      ▷-Ok _ _ (driver_disconnect k) (λ _. disconnect_interfaces k m) s refl
        (driver_disconnect-empty n s nil live)
        (λ _ s' (nil', live'). disconnect_interfaces-empty m n s' nil' live')

  -- ubq_disable_device leaves no endpoint, and what is not of endpoints.
  pub ubq_disable_device-empty :
      (n : ℕ) (s : DriverState W)
      → s.heap.live ≡ objects s.eplist + n
      → Ok (λ _ s'. (s'.eplist ≡ []) × (s'.heap.live ≡ n)) (ubq_disable_device k s)
  unfolding ubq_disable_device disconnect_bound
  ubq_disable_device-empty n s e =
      ▷-Ok (λ _ s'. (s'.eplist ≡ []) × (s'.heap.live ≡ n)) _ (clean_endpoints k) _ s refl
        (clean_endpoints-Accounted k n s e)
        (λ _ s' (nil, live, _).
          ▷-Ok (λ _ s'. (s'.eplist ≡ []) × (s'.heap.live ≡ n)) _ (disconnect_bound k) _ s' refl
            (disconnect_interfaces-empty (k.bound s'.heap.world) n s' nil live)
            (λ _ s'' (nil', live'). (nil', live')))
