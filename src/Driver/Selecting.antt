-- ===== src/Driver/Selecting.antt =====
-- The loops over the interfaces of driver.c, on a steady state: none of them leaves the memory, and
-- the state stays steady.
use usbq_core.Action.{Act, Ok, ret, ▷-Ok, ◌▷◌}
use usbq_core.Driver.Dispatch.{configure}
use usbq_core.Driver.Interfaces.{
  active_interfaces, change_interface, disable_active_driver_interface, disable_altsettings,
  disable_driver_interface, disable_endpoint, disable_endpoints, disable_interfaces,
  enable_default_driver_interface, enable_driver_interface, enable_endpoint, enable_endpoints,
  enable_interfaces, set_driver_interface,
}
use usbq_core.Driver.Sound.{Grew-IsWatched, IsWatched, Watch}
use usbq_core.Driver.State.{DriverState}
use usbq_core.Driver.Switching.{
  Configures, IsKernelAltsetting, IsKernelDesc, IsKernelInterface, Offers, disable_endpoint-Keeps,
  enable_endpoint-Keeps,
}
use usbq_core.Driver.Watching.{OnControl}
use usbq_core.Endpoint.{Kernel, UsbInterface}
use usbq_core.Identity.{HostInterface}
use usbq_core.Part.Accounts.{Gives, world-Grew}
use usbq_core.Prelude.{
  Bool, Bool-cases, Bytes, Every, List, Option, [], if◌then◌else◌, inl, inr, is_neg, is_nonzero,
  refl, ℕ, ℤ, ◌∷◌,
}

module _ {W : Type 0} (k : Kernel W) (gives : Gives k) (n : ℕ) (w : Option Watch)
    (control : OnControl w) where
  abbrev I : DriverState W → Type 0
  I = IsWatched n w

  abbrev pub Keeps : {A : Type 0} → Act (DriverState W) A → Type 0
  Keeps m = (s : DriverState W) → IsWatched n w s → Ok (λ _ s'. IsWatched n w s') (m s)

  Keeps-step :
      (leave : ℤ → Bool) (m rest : Act (DriverState W) ℤ)
      → Keeps m
      → Keeps rest
      → Keeps (m ▷ λ err. if leave err then ret err else rest)
  Keeps-step leave m rest keeps later s v =
      ▷-Ok (λ _ s'. I s') _ m (λ err. if leave err then ret err else rest) s refl (keeps s v)
        (λ err s' v'. elim (Bool-cases (leave err)) [
          | inl y ↦ rw y v'
          | inr y ↦ rw y (later s' v')
        ])

  disable_endpoints-Keeps :
      (list : List Bytes) → Every IsKernelDesc list → Keeps (disable_endpoints k list)
  unfolding disable_endpoints
  disable_endpoints-Keeps [] a s v = v
  disable_endpoints-Keeps (d ∷ list) (u, a) s v =
      ▷-Ok (λ _ s'. I s') _ (disable_endpoint k d) (λ _. disable_endpoints k list) s refl
        (disable_endpoint-Keeps k gives n w control d u s v)
        (λ _ s' v'. disable_endpoints-Keeps list a s' v')

  enable_endpoints-Keeps :
      (list : List Bytes) → Every IsKernelDesc list → Keeps (enable_endpoints k list)
  unfolding enable_endpoints
  enable_endpoints-Keeps [] a = λ s v. v
  enable_endpoints-Keeps (d ∷ list) (u, a) =
      Keeps-step is_neg (enable_endpoint k d) (enable_endpoints k list)
        (enable_endpoint-Keeps k gives n w control d u) (enable_endpoints-Keeps list a)

  disable_driver_interface-Keeps :
      (intf : HostInterface) → IsKernelAltsetting intf → Keeps (disable_driver_interface k intf)
  unfolding disable_driver_interface
  disable_driver_interface-Keeps intf = disable_endpoints-Keeps _

  enable_driver_interface-Keeps :
      (intf : HostInterface) → IsKernelAltsetting intf → Keeps (enable_driver_interface k intf)
  unfolding enable_driver_interface
  enable_driver_interface-Keeps intf = enable_endpoints-Keeps _

  disable_altsettings-Keeps :
      (list : List HostInterface)
      → Every IsKernelAltsetting list
      → Keeps (disable_altsettings k list)
  unfolding disable_altsettings
  disable_altsettings-Keeps [] a = λ s v. v
  disable_altsettings-Keeps (intf ∷ list) (u, a) =
      Keeps-step is_neg (disable_driver_interface k intf) (disable_altsettings k list)
        (disable_driver_interface-Keeps intf u) (disable_altsettings-Keeps list a)

  disable_interfaces-Keeps :
      (list : List UsbInterface) → Every IsKernelInterface list → Keeps (disable_interfaces k list)
  unfolding disable_interfaces
  disable_interfaces-Keeps [] a = λ s v. v
  disable_interfaces-Keeps (iface ∷ list) (u, a) =
      Keeps-step is_neg (disable_altsettings k iface.altsetting) (disable_interfaces k list)
        (disable_altsettings-Keeps iface.altsetting u.all) (disable_interfaces-Keeps list a)

  enable_interfaces-Keeps :
      (list : List UsbInterface) → Every IsKernelInterface list → Keeps (enable_interfaces k list)
  unfolding enable_interfaces
  enable_interfaces-Keeps [] a = λ s v. v
  enable_interfaces-Keeps (iface ∷ list) (u, a) =
      Keeps-step is_neg (enable_driver_interface k iface.cur_altsetting) (enable_interfaces k list)
        (enable_driver_interface-Keeps iface.cur_altsetting u.current)
        (enable_interfaces-Keeps list a)

  -- What a SET_CONFIGURATION does to the endpoints.
  pub configure-Keeps : Configures k → Keeps (configure k)
  unfolding configure disable_active_driver_interface enable_default_driver_interface
  configure-Keeps configures s v =
      ▷-Ok (λ _ s'. I s') _ (disable_active_driver_interface k) _ s refl
        (disable_interfaces-Keeps (active_interfaces k s) ((configures s.heap.world).0) s v)
        (λ err s' v'. elim (Bool-cases (is_neg err)) [
          | inl neg ↦ rw neg v'
          | inr good ↦ rw good (
              ▷-Ok (λ _ s''. I s'') _ (enable_default_driver_interface k) _ s' refl
                (enable_interfaces-Keeps (active_interfaces k s') ((configures s'.heap.world).0) s'
                  v')
                (λ _ s'' v''. v''))
        ])

  pub set_driver_interface-Keeps :
      (ifnumber alternative : ℕ)
      → Offers k ifnumber alternative
      → Keeps (set_driver_interface k ifnumber alternative)
  unfolding set_driver_interface change_interface
  set_driver_interface-Keeps ifnumber alternative offers s v =
      let (iface, found, u, alt, there, u') = offers s.heap.world in
      let moved : DriverState W = record s {
        heap = record s.heap { world = (k.usb_set_interface ifnumber alternative s.heap.world).1 };
      } in
      let err : ℤ = (k.usb_set_interface ifnumber alternative s.heap.world).0 in
      let v' : I moved = Grew-IsWatched n w s moved v 0 (world-Grew _ _) in
      rw (found, set_driver_interface, there)
        (elim (Bool-cases (is_neg err)) [
          | inl neg ↦ rw neg v'
          | inr good ↦ rw good (
              Keeps-step is_nonzero (disable_driver_interface k iface.cur_altsetting)
                (enable_driver_interface k alt)
                (disable_driver_interface-Keeps iface.cur_altsetting u.current)
                (enable_driver_interface-Keeps alt u') moved v')
        ])
