-- ===== src/Gadget/Interfaces.antt =====
-- gadget.c: the interfaces of the identity, whose endpoints come and go (lines 274-417).
use usbq_core.Action.{Act, ret, ◌▷◌}
use usbq_core.Endpoint.{Kernel}
use usbq_core.Gadget.{GadgetEndpoint, GadgetState, Udc}
use usbq_core.Gadget.Requests.{ep_gadget_send_usb}
use usbq_core.Gadget.State.{
  add_gadget_endpoint, endpoint_at, find_gadget_endpoint, free_gadget_endpoint, interface_at,
  set_active,
}
use usbq_core.Identity.{b_alternate_setting, b_interface_number, b_num_endpoints}
use usbq_core.Types.{epid_of_desc, is_ctrl, is_out}
use usbq_core.Prelude.{
  Option, einval, enomem, if◌then◌else◌, inl, inr, is_neg, is_nonzero, none, not, pos, some, suc,
  zero, ℕ, ℤ, ◌&&◌, ◌==◌, ◌⊎◌,
}

module _ {W : Type 0} (k : Kernel W) (g : Udc W) where
  -- The body of the loop of disable_interface, for endpoint `j` of interface `i`.
  unfoldable pub disable_gadget_endpoint : ℕ → ℕ → Act (GadgetState W) (Unit {0})
  disable_gadget_endpoint i j = endpoint_at i j ▷ λ desc.
      find_gadget_endpoint k g (epid_of_desc desc)
      ▷ elim [ none ↦ ret tt | some ep ↦ free_gadget_endpoint k g ep ]

  -- The next `n` endpoints from `j` on.
  unfoldable pub disable_gadget_endpoints : ℕ → ℕ → ℕ → Act (GadgetState W) ℤ
  disable_gadget_endpoints zero i j = ret (pos 0)
  disable_gadget_endpoints (suc n) i j =
      disable_gadget_endpoint i j ▷ λ _. disable_gadget_endpoints n i (suc j)

  unfoldable pub disable_interface : ℕ → Act (GadgetState W) ℤ
  disable_interface i = set_active i 0 ▷ λ _.
      interface_at i ▷ λ interface. disable_gadget_endpoints (b_num_endpoints interface.desc) i 0

  -- Wait for the host on an OUT endpoint, which is freed if that fails.
  unfoldable pub await_host : GadgetEndpoint → Act (GadgetState W) ℤ
  await_host epnew =
      if is_out epnew.epid && not (is_ctrl epnew.epid)
      then ep_gadget_send_usb k g epnew none ▷ (λ err.
        if is_neg err then free_gadget_endpoint k g epnew ▷ (λ _. ret err) else ret (pos 0))
      else ret (pos 0)

  -- The body of the loop of enable_interface: a negative result leaves it.
  unfoldable pub enable_gadget_endpoint : ℕ → ℕ → Act (GadgetState W) ℤ
  enable_gadget_endpoint i j =
      add_gadget_endpoint k g i j ▷ elim [ none ↦ ret enomem | some epnew ↦ await_host epnew ]

  unfoldable pub enable_gadget_endpoints : ℕ → ℕ → ℕ → Act (GadgetState W) ℤ
  enable_gadget_endpoints zero i j = ret (pos 0)
  enable_gadget_endpoints (suc n) i j = enable_gadget_endpoint i j ▷ λ err.
      if is_neg err then ret err else enable_gadget_endpoints n i (suc j)

  unfoldable pub enable_interface : ℕ → Act (GadgetState W) ℤ
  enable_interface i = set_active i 1 ▷ λ _.
      interface_at i ▷ λ interface. enable_gadget_endpoints (b_num_endpoints interface.desc) i 0

  -- The loops over the next `n` interfaces from `i` on.
  unfoldable pub disable_active_from : ℕ → ℕ → Act (GadgetState W) ℤ
  disable_active_from zero i = ret (pos 0)
  disable_active_from (suc n) i = interface_at i ▷ λ iface.
      (if iface.active == 0 then ret (pos 0) else disable_interface i) ▷ λ err.
      if is_neg err then ret err else disable_active_from n (suc i)

  unfoldable pub disable_active_interface : Act (GadgetState W) ℤ
  disable_active_interface s = disable_active_from s.own.identity.nb_int 0 s

  unfoldable pub enable_default_from : ℕ → ℕ → Act (GadgetState W) ℤ
  enable_default_from zero i = ret (pos 0)
  enable_default_from (suc n) i = interface_at i ▷ λ iface.
      (if b_alternate_setting iface.desc == 0 then enable_interface i else ret (pos 0)) ▷ λ err.
      if is_neg err then ret err else enable_default_from n (suc i)

  unfoldable pub enable_default_interface : Act (GadgetState W) ℤ
  enable_default_interface s = enable_default_from s.own.identity.nb_int 0 s

  -- The loop of set_interface, with the variable `active`: an error, or what `active` then is.
  unfoldable pub select_from :
      (ifnumber alternative : ℕ) → ℕ → ℕ → Option ℕ → Act (GadgetState W) (ℤ ⊎ Option ℕ)
  select_from ifnumber alternative zero i active = ret (inr active)
  select_from ifnumber alternative (suc n) i active = interface_at i ▷ λ interface.
      let next = select_from ifnumber alternative n (suc i) in
      if not (b_interface_number interface.desc == ifnumber)
      then next active
      else if b_alternate_setting interface.desc == alternative
      then next (some i)
      else disable_interface i ▷ λ err. if is_nonzero err then ret (inl err) else next active

  unfoldable pub set_interface : (ifnumber alternative : ℕ) → Act (GadgetState W) ℤ
  set_interface ifnumber alternative s =
      (select_from ifnumber alternative s.own.identity.nb_int 0 none
          ▷ elim [ inl err ↦ ret err | inr none ↦ ret einval | inr (some i) ↦ enable_interface i ])
        s
