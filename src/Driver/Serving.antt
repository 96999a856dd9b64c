-- ===== src/Driver/Serving.antt =====
-- driver_recv_userland, driver_disconnect and driver_probe of driver.c on a steady state.
use usbq_core.Action.{Ok, Ok-both, Ok-map, ret, ▷-Ok, ◌▷◌}
use usbq_core.Driver.Callbacks.{ep_driver_send_userland}
use usbq_core.Driver.Cleanup.{clean_endpoints-Accounted}
use usbq_core.Driver.Dispatch.{
  driver_disconnect, driver_recv_userland, driver_recv_userland_management,
  driver_recv_userland_usb, probe_interfaces, probe_unbound, recv_userland, ubq_disable_device,
  ubq_enable_device,
}
use usbq_core.Driver.Dispatching.{driver_disconnect-Accounted, ubq_disable_device-empty}
use usbq_core.Driver.Probe.{
  Built, announce_device, driver_probe, new_init_pkt, new_init_pkt-Built, probe_in, probe_out,
}
use usbq_core.Driver.Receiving.{
  IsForDriver, V, V-result, ep_driver_send_userland-Grew, free_msg-V, held_message, recv_userland-V,
}
use usbq_core.Driver.Sound.{Grew-IsWatched, IsLinked, IsWatched, Readable}
use usbq_core.Driver.State.{
  DriverEndpoint, DriverState, add_driver_ep0_endpoint, clean_endpoints, find_driver_endpoint,
  set_init,
}
use usbq_core.Driver.Switching.{Configures}
use usbq_core.Endpoint.{Kernel, find_endpoint}
use usbq_core.Gadget.Completing.{IsReal}
use usbq_core.Identity.{Device}
use usbq_core.Identity.Built.{IsDevice}
use usbq_core.Msg.{
  Msg, get_epid, is_management_msg, is_reload_mng_msg, is_reset_mng_msg, is_usb_msg,
}
use usbq_core.Part.{free_msg}
use usbq_core.Part.Accounts.{Gives, world-Grew}
use usbq_core.Part.Adding.{Added0, add_ep0_endpoint-Added0}
use usbq_core.Part.Addresses.{Addressed, add_ep0_endpoint-Addressed}
use usbq_core.Part.Cleanup.{objects}
use usbq_core.Part.Table.{Distinct}
use usbq_core.Types.{dir_in, dir_out, is_ctrl}
use usbq_core.Prelude.{
  Bool-cases, Every, List, Option, Option-cases, [], ap, arith, error_or_zero, inl, inr, is_nonzero,
  none, pos, refl, some, subst, suc, sym, true, ℕ, ℤ, ◌-◌, ◌<◌, ◌==◌, ◌∷◌, ◌≡◌, ◌≤◌,
}

-- A message of userland that the driver can be given, whatever its state.
abbrev pub IsAccepted : {W : Type 0} → Kernel W → Msg → Type 0
IsAccepted k msg = is_usb_msg msg ≡ true → IsForDriver k msg

module _ {W : Type 0} (k : Kernel W) (gives : Gives k) (n : ℕ) where
  -- Without endpoints.
  empty-V : (s : DriverState W) → s.eplist ≡ [] → n ≤ s.heap.live → IsWatched n none s
  unfolding objects
  empty-V s nil le = record {
    steady = record {
      addressed = record {
        distinct = subst Distinct (sym nil) tt;
        before = subst (Every (λ x. x.ref < s.heap.next)) (sym nil) tt;
      };
      linked = subst (Every IsLinked) (sym nil) tt;
      live_le = rw nil (omega (arith, le));
    };
    watched = tt;
  }

  clean_endpoints-V :
      (s : DriverState W)
      → IsWatched n none s
      → Ok (λ _ s'. (s'.eplist ≡ []) × (n ≤ s'.heap.live)) (clean_endpoints k s)
  clean_endpoints-V s v =
      Ok-map _ (λ _ s'. (s'.eplist ≡ []) × (n ≤ s'.heap.live)) (clean_endpoints k s)
        (λ _ s' (nil, live, _). (nil, omega (arith, live, v.steady.live_le)))
        (clean_endpoints-Accounted k (s.heap.live - objects s.eplist) s
          (omega (arith, v.steady.live_le)))

  pub driver_disconnect-V :
      (s : DriverState W) → IsWatched n none s → Ok (V k gives n) (driver_disconnect k s)
  unfolding driver_disconnect
  driver_disconnect-V s v = elim (Bool-cases (s.own.init == 0)) [
    | inl off ↦ rw (off, driver_disconnect) v
    | inr on ↦
        Ok-map _ (V k gives n) (driver_disconnect k s)
          (λ _ s' (_, nil, live). empty-V s' nil (omega (arith, live, v.steady.live_le)))
          (driver_disconnect-Accounted k gives (s.heap.live - objects s.eplist) s
            (ground (arith, on)) (omega (arith, v.steady.live_le)))
  ]

  -- A control endpoint number 0 more, or none.
  joined0_steady :
      (dir : ℕ) (dir_le : dir ≤ dir_out) (s : DriverState W)
      → IsWatched n none s
      → (o : Option DriverEndpoint) (s' : DriverState W) → Added0 s dir o s'
      → Addressed s'
      → IsWatched n none s'
  unfolding objects
  joined0_steady dir dir_le s v none s' grew a = Grew-IsWatched n none s s' v 0 grew
  joined0_steady dir dir_le s v (some ep) s' (list, id_eq, desc_eq, nil, live, _) a =
      let linked : IsLinked ep = record {
        real = subst IsReal (sym id_eq) (record {
          real = record { type_le = omega arith; dir_le = dir_le };
          narrow = record {
            num_lt = omega arith;
            type_lt = omega arith;
            dir_lt = omega (arith, dir_le);
          };
        });
        described = inl (ap is_ctrl id_eq);
        requests = subst (Every (Readable ep.epid)) (sym nil) tt;
      } in
      record {
        steady = record {
          addressed = a;
          linked = subst (Every IsLinked) (sym list) (linked, v.steady.linked);
          live_le = rw (list, desc_eq, nil) (omega (arith, v.steady.live_le, live));
        };
        watched = tt;
      }

  add_driver_ep0_endpoint-V :
      (dir : ℕ) (dir_le : dir ≤ dir_out) (s : DriverState W)
      → IsWatched n none s
      → Ok (V k gives n) (add_driver_ep0_endpoint k dir s)
  unfolding add_driver_ep0_endpoint
  add_driver_ep0_endpoint-V dir dir_le s v =
      Ok-both (Added0 s dir) (λ _ s'. Addressed s') (V k gives n) (add_driver_ep0_endpoint k dir s)
        (joined0_steady dir dir_le s v) (add_ep0_endpoint-Added0 k gives tt 64 dir s)
        (add_ep0_endpoint-Addressed k tt 64 dir s v.steady.addressed)

  announce_device-V :
      (dev : Device) (d : IsDevice dev) (o : Option Msg) (s s' : DriverState W)
      → IsWatched n none s
      → Built k gives dev d s o s'
      → Ok (V k gives n) (announce_device k o s')
  unfolding announce_device
  announce_device-V dev d none s s' v grew = Grew-IsWatched n none s s' v 0 grew
  announce_device-V dev d (some m) s s' v grew =
      ▷-Ok (V k gives n) _ (ep_driver_send_userland k m) _ s' refl
        (ep_driver_send_userland-Grew k gives n m s')
        (λ err s'' grew'.
          ▷-Ok (V k gives n) _ (free_msg k) (λ _. ret (error_or_zero err)) s'' refl
            (free_msg-V k gives n s''
              (Grew-IsWatched (suc n) none s' s'' (held_message k gives n s s' v grew) 0 grew'))
            (λ _ s''' v'''. v'''))

  pub driver_probe-V :
      (dev : Device) (s : DriverState W)
      → IsDevice dev
      → IsWatched n none s
      → Ok (V k gives n) (driver_probe k dev s)
  unfolding driver_probe probe_in probe_out
  driver_probe-V dev s d v = elim (Bool-cases (s.own.init == 0)) [
    | inr off ↦ rw (off, driver_probe) v
    | inl on ↦
        rw (on, driver_probe)
          (▷-Ok (V k gives n) _ (add_driver_ep0_endpoint k dir_in) (probe_in k dev) (set_init 1 s)
            refl
            (add_driver_ep0_endpoint-V dir_in (omega arith) (set_init 1 s) (record {
              steady = record {
                addressed = record {
                  distinct = v.steady.addressed.distinct;
                  before = v.steady.addressed.before;
                };
                linked = v.steady.linked;
                live_le = v.steady.live_le;
              };
              watched = tt;
            }))
            (elim [
              | none ↦ λ s' v'. v'
              | some epin ↦ λ s' v'.
                  ▷-Ok (V k gives n) _ (add_driver_ep0_endpoint k dir_out) (probe_out k dev) s' refl
                    (add_driver_ep0_endpoint-V dir_out (omega arith) s' v')
                    (elim [
                      | none ↦ λ s'' v''. v''
                      | some epout ↦ λ s'' v''.
                          ▷-Ok (V k gives n) _ (new_init_pkt k dev) (announce_device k) s'' refl
                            (new_init_pkt-Built k gives dev d s'')
                            (λ o s''' built. announce_device-V dev d o s'' s''' v'' built)
                    ])
            ]))
  ]

  ubq_disable_device-V :
      (s : DriverState W) → IsWatched n none s → Ok (V k gives n) (ubq_disable_device k s)
  ubq_disable_device-V s v =
      Ok-map _ (V k gives n) (ubq_disable_device k s)
        (λ _ s' (nil, live). empty-V s' nil (omega (arith, live, v.steady.live_le)))
        (ubq_disable_device-empty k gives (s.heap.live - objects s.eplist) s
          (omega (arith, v.steady.live_le)))

  probe_interfaces-V :
      (devs : List Device) (s : DriverState W)
      → Every IsDevice devs
      → IsWatched n none s
      → Ok (V k gives n) (probe_interfaces k devs s)
  unfolding probe_interfaces
  probe_interfaces-V [] s d v = v
  probe_interfaces-V (dev ∷ devs) s (d, ds) v =
      ▷-Ok (V k gives n) _ (driver_probe k dev) (λ _. probe_interfaces k devs) s refl
        (driver_probe-V dev s d v) (λ _ s' v'. probe_interfaces-V devs s' ds v')

-- Messages, with what usb_register finds.
module _ {W : Type 0} (k : Kernel W) (gives : Gives k) (configures : Configures k) (n : ℕ) where
  pub ubq_enable_device-V :
      (s : DriverState W) → IsWatched n none s → Ok (V k gives n) (ubq_enable_device k s)
  unfolding ubq_enable_device probe_unbound
  ubq_enable_device-V s v =
      let answer : ℤ × W = k.usb_register s.heap.world in
      let s1 : DriverState W = record s { heap = record s.heap { world = answer.1 } } in
      let v1 : IsWatched n none s1 = Grew-IsWatched n none s s1 v 0 (world-Grew s answer.1) in
      elim (Bool-cases (is_nonzero answer.0)) [
        | inl bad ↦ rw bad v1
        | inr good ↦ rw good (
            ▷-Ok (V k gives n) _ (probe_unbound k) (λ _. ret answer.0) s1 refl
              (probe_interfaces-V k gives n (k.unbound answer.1) s1 ((configures answer.1).1) v1)
              (λ _ s' v'. v'))
      ]

  managed-V :
      (msg : Msg) (s : DriverState W)
      → IsWatched n none s
      → Ok (V k gives n) (driver_recv_userland_management k msg s)
  unfolding driver_recv_userland_management
  managed-V msg s v = elim (Bool-cases (is_reset_mng_msg msg)) [
    | inl r ↦
        rw (r, driver_recv_userland_management)
          (▷-Ok (V k gives n) _ (ubq_disable_device k) (λ _. ret (pos 0)) s refl
            (ubq_disable_device-V k gives n s v) (λ _ s' v'. v'))
    | inr r ↦ elim (Bool-cases (is_reload_mng_msg msg)) [
      | inl l ↦
          rw (r, driver_recv_userland_management, l)
            (V-result k gives n (ubq_enable_device k) s (ubq_enable_device-V s v))
      | inr l ↦ rw (r, driver_recv_userland_management, l) v
    ]
  ]

  usb-V :
      (msg : Msg) (s : DriverState W)
      → IsWatched n none s
      → IsForDriver k msg
      → Ok (V k gives n) (driver_recv_userland_usb k msg s)
  unfolding driver_recv_userland_usb find_driver_endpoint
  usb-V msg s v r = elim (Option-cases (find_endpoint (get_epid msg) s.eplist)) [
    | inl e ↦ rw (e, Ok, ◌▷◌) v
    | inr (ep, e) ↦
        rw (e, Ok, ◌▷◌)
          (V-result k gives n (recv_userland k ep msg) s (recv_userland-V k gives n ep s v msg e r))
  ]

  pub driver_recv_userland-V :
      (msg : Msg) (s : DriverState W)
      → IsWatched n none s
      → IsAccepted k msg
      → Ok (V k gives n) (driver_recv_userland k msg s)
  unfolding driver_recv_userland
  driver_recv_userland-V msg s v a = elim (Bool-cases (is_usb_msg msg)) [
    | inl usb ↦
        rw (usb, driver_recv_userland)
          (V-result k gives n (driver_recv_userland_usb k msg) s (usb-V msg s v (a usb)))
    | inr usb ↦ elim (Bool-cases (is_management_msg msg)) [
      | inl m ↦
          rw (usb, driver_recv_userland, m)
            (V-result k gives n (driver_recv_userland_management k msg) s (managed-V msg s v))
      | inr m ↦ rw (usb, driver_recv_userland, m) v
    ]
  ]
