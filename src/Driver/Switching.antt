-- ===== src/Driver/Switching.antt =====
-- What the USB core says of its interfaces; and an endpoint of driver.c that comes or goes with its
-- interface, on a steady state.
use usbq_core.Action.{Act, Ok, Ok-both, Ok-map, ▷-Ok, ◌▷◌}
use usbq_core.Driver.Adding.{add_driver_endpoint-Added}
use usbq_core.Driver.Callbacks.{ep_driver_send_usb}
use usbq_core.Driver.Cleanup.{cancel_requests-live}
use usbq_core.Driver.Interfaces.{disable_endpoint, enable_endpoint}
use usbq_core.Driver.Offering.{ep_driver_send_usb-waits}
use usbq_core.Driver.Refinement.{cancel_requests-next}
use usbq_core.Driver.Sound.{
  IsLinked, IsWatched, Readable, Submits, Submits-IsWatched, Watch, Watched,
}
use usbq_core.Driver.State.{
  DriverEndpoint, DriverState, add_driver_endpoint, cancel_requests, find_driver_endpoint,
  free_driver_endpoint,
}
use usbq_core.Driver.Watching.{OnControl, Watched-join, Watched-remove}
use usbq_core.Endpoint.{Heap, Kernel, UsbInterface, find_endpoint}
use usbq_core.Gadget.Completing.{IsReal}
use usbq_core.Gadget.Usable.{epid_of_desc-IsReal}
use usbq_core.Identity.{HostInterface, b_num_endpoints, b_num_interfaces}
use usbq_core.Identity.Built.{IsDevice}
use usbq_core.Part.{list_del}
use usbq_core.Part.Accounts.{Gives}
use usbq_core.Part.Adding.{Added}
use usbq_core.Part.Addresses.{
  Addressed, Addressed-remove, add_endpoint-Addressed, free_endpoint-next,
}
use usbq_core.Part.Cleanup.{free_endpoint-live, objects}
use usbq_core.Part.Members.{Present}
use usbq_core.Part.Table.{Distinct, Every-remove, list_del-remove, objects-remove, remove}
use usbq_core.Types.{epid_of_desc, is_ctrl, is_in, w_max_packet_size}
use usbq_core.Prelude.{
  Bool-cases, Bytes, Every, Option, Option-cases, arith, false, inl, inr, none, not, refl, some,
  subst, sym, take, ℕ, ◌&&◌, ◌<◌, ◌∙◌, ◌≡◌,
}

-- A descriptor that the USB core gives: no control endpoint.
pub record IsKernelDesc (d : Bytes) : Type 0 where
  pub other : is_ctrl (epid_of_desc d) ≡ false
  pub packet : w_max_packet_size d < 65536

abbrev pub IsKernelAltsetting : HostInterface → Type 0
IsKernelAltsetting intf = Every IsKernelDesc (take (b_num_endpoints intf.desc) intf.endpoint)

pub record IsKernelInterface (iface : UsbInterface) : Type 0 where
  pub all : Every IsKernelAltsetting iface.altsetting
  pub current : IsKernelAltsetting iface.cur_altsetting

-- The interfaces of the active configuration, and the devices that usb_register finds, at any time.
abbrev pub Configures : {W : Type 0} → Kernel W → Type 0
Configures k =
    (w : _)
    → Every IsKernelInterface
        (take (b_num_interfaces ((k.actconfig w).desc)) ((k.actconfig w).interface))
      × Every IsDevice (k.unbound w)

-- The interface and the alternate setting are there, at any time.
abbrev pub Offers : {W : Type 0} → Kernel W → ℕ → ℕ → Type 0
Offers k ifnumber alternative =
    (w : _)
    → (iface : UsbInterface) × (k.usb_ifnum_to_if ifnumber w ≡ some iface)
      × IsKernelInterface iface
      × (alt : HostInterface) × (k.usb_altnum_to_altsetting iface alternative ≡ some alt)
      × IsKernelAltsetting alt

module _ {W : Type 0} (k : Kernel W) (gives : Gives k) (n : ℕ) (w : Option Watch)
    (control : OnControl w) where
  abbrev I : DriverState W → Type 0
  I = IsWatched n w

  abbrev pub Keeps : {A : Type 0} → Act (DriverState W) A → Type 0
  Keeps m = (s : DriverState W) → IsWatched n w s → Ok (λ _ s'. IsWatched n w s') (m s)

  -- Freeing the endpoint that was found.
  pub disable_endpoint-Keeps : (d : Bytes) → IsKernelDesc d → Keeps (disable_endpoint k d)
  unfolding disable_endpoint find_driver_endpoint free_driver_endpoint
  disable_endpoint-Keeps d u s v = elim (Option-cases (find_endpoint (epid_of_desc d) s.eplist)) [
    | inl e ↦ rw (e, Ok, ◌▷◌) v
    | inr (ep, e) ↦
        let a : Addressed s = v.steady.addressed in
        let gone : list_del ep.ref s.eplist ≡ remove (epid_of_desc d) s.eplist =
          list_del-remove (epid_of_desc d) ep s.eplist a.distinct e in
        let h : Heap W = cancel_requests k ep.reqlist s.heap in
        rw (e, Ok, ◌▷◌, gone)
          (record {
            steady = record {
              addressed = Addressed-remove s _ a (epid_of_desc d) refl (
                  free_endpoint-next k ep h
                  ∙ cancel_requests-next k (epid_of_desc d) ep.reqlist s.heap);
              linked = Every-remove IsLinked (epid_of_desc d) s.eplist v.steady.linked;
              live_le = omega (
                arith,
                v.steady.live_le,
                objects-remove (epid_of_desc d) ep s.eplist e,
                free_endpoint-live k ep ep.desc h refl,
                cancel_requests-live k ep.reqlist s.heap,
              );
            };
            watched =
                Watched-remove w (epid_of_desc d) s.eplist control u.other a.distinct v.watched;
          })
  ]

  -- The state with the endpoint of a descriptor more, or without it when that failed.
  abbrev Gained : Option DriverEndpoint → DriverState W → Type 0
  Gained none s = I s
  Gained (some ep) s = I s × IsLinked ep × Present ep.ref ep.epid s.eplist

  joined_steady :
      (d : Bytes) (s : DriverState W)
      → IsKernelDesc d
      → I s
      → (o : Option DriverEndpoint) (s' : DriverState W) → Added tt s d o s'
      → Addressed s'
      → Gained o s'
  unfolding objects
  joined_steady d s u v none s' (same, more, _, _) a = record {
    steady = record {
      addressed = a;
      linked = subst (Every IsLinked) (sym same) v.steady.linked;
      live_le = rw same (omega (arith, v.steady.live_le, more));
    };
    watched = subst (Watched w) (sym same) v.watched;
  }
  joined_steady d s u v (some ep) s' (list, id_eq, desc_eq, nil, _, live, _) a =
      let linked : IsLinked ep = record {
        real = subst IsReal (sym id_eq) (epid_of_desc-IsReal d);
        described = inr (d, desc_eq, u.packet);
        requests = subst (Every (Readable ep.epid)) (sym nil) tt;
      } in
      (
        record {
          steady = record {
            addressed = a;
            linked = subst (Every IsLinked) (sym list) (linked, v.steady.linked);
            live_le = rw (list, desc_eq, nil) (omega (arith, v.steady.live_le, live));
          };
          watched =
              subst (Watched w) (sym list)
                (Watched-join w ep s.eplist ((subst Distinct list a.distinct).0) v.watched);
        },
        linked,
        subst (Present ep.ref ep.epid) (sym list) (inl (refl, refl)),
      )

  add_driver_endpoint-Gained :
      (d : Bytes) (s : DriverState W) → IsKernelDesc d → I s → Ok Gained (add_driver_endpoint k d s)
  unfolding add_driver_endpoint
  add_driver_endpoint-Gained d s u v =
      Ok-both (Added tt s d) (λ _ s'. Addressed s') Gained (add_driver_endpoint k d s)
        (joined_steady d s u v) (add_driver_endpoint-Added k gives d s)
        (add_endpoint-Addressed k tt d s v.steady.addressed 64)

  pub enable_endpoint-Keeps : (d : Bytes) → IsKernelDesc d → Keeps (enable_endpoint k d)
  unfolding enable_endpoint
  enable_endpoint-Keeps d u s v =
      ▷-Ok (λ _ s'. I s') _ (add_driver_endpoint k d) _ s refl (add_driver_endpoint-Gained d s u v)
        (elim [
          | none ↦ λ s' v'. v'
          | some ep ↦ λ s' (v', linked, here).
              elim (Bool-cases (is_in ep.epid && not (is_ctrl ep.epid))) [
                | inl y ↦ rw y (
                    Ok-map (λ _ s''. Submits ep s' s'') (λ _ s''. I s'')
                      (ep_driver_send_usb k ep none s')
                      (λ _ s'' sub. Submits-IsWatched n w ep s' s'' v' here sub)
                      (ep_driver_send_usb-waits k gives s' ep linked (ground (arith, y))))
                | inr y ↦ rw y v'
              ]
        ])
