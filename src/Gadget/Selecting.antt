-- ===== src/Gadget/Selecting.antt =====
-- The loops over the interfaces of gadget.c, on a sound state: none of them reads or writes outside
-- of the arrays, and the state stays sound.
use usbq_core.Action.{Act, Ok, lift, ret, ▷-Ok, ◌▷◌}
use usbq_core.Endpoint.{Kernel}
use usbq_core.Gadget.{GadgetState, Udc}
use usbq_core.Gadget.Cleanup.{Dequeues}
use usbq_core.Gadget.Enabling.{add_gadget_endpoint-Gained, await_host-Kept}
use usbq_core.Gadget.Interfaces.{
  disable_active_from, disable_active_interface, disable_interface, enable_default_from,
  enable_default_interface, enable_gadget_endpoint, enable_gadget_endpoints, enable_interface,
  select_from, set_interface,
}
use usbq_core.Gadget.Sound.{Kept}
use usbq_core.Gadget.State.{add_gadget_endpoint, interface_at, put_interface_at, set_active}
use usbq_core.Gadget.Switching.{
  Narrow, disable_interface-Kept, interface-IsUsable, interface_there, with_interface-Kept,
}
use usbq_core.Gadget.Usable.{IsUsable, IsUsableDesc, SameShape, interface-SameShape, with_interface}
use usbq_core.Identity.{
  Identity, InterfaceDesc, b_alternate_setting, b_interface_number, b_num_endpoints,
}
use usbq_core.Part.Accounts.{Gives}
use usbq_core.Types.{Epid, is_ctrl}
use usbq_core.Prelude.{
  Bool, Bool-cases, Every-get_elem?, Option, ap, arith, false, get_elem?, get_elem?-drop,
  get_elem?-lt, get_elem?-set_self, if◌then◌else◌, inl, inr, is_neg, is_nonzero, none, pos, refl,
  some, suc, sym, true, zero, ℕ, ℤ, ◌+◌, ◌<◌, ◌==◌, ◌≡◌, ◌≤◌, ◌⊎◌,
}

SameShape-sym : (a b : Identity) → SameShape a b → SameShape b a
SameShape-sym a b s = record { nb_eq = sym s.nb_eq; descs_eq = sym s.descs_eq }

module _ {W : Type 0} (k : Kernel W) (gives : Gives k) (g : Udc W) (narrow : Narrow g)
    (dequeues : Dequeues g) (n ref : ℕ) (id : Epid) (control : is_ctrl id ≡ true)
    (shape : Identity) where
  abbrev pub I : GadgetState W → Type 0
  I = Kept n ref id shape

  abbrev pub Keeps : {A : Type 0} → Act (GadgetState W) A → Type 0
  Keeps m = (s : GadgetState W) → I s → Ok (λ _ s'. I s') (m s)

  Keeps-interface_at :
      {A : Type 0} (i : ℕ) (f : InterfaceDesc → Act (GadgetState W) A)
      → i < shape.nb_int
      → ((x : InterfaceDesc) → Keeps (f x))
      → Keeps (interface_at i ▷ f)
  unfolding interface_at
  Keeps-interface_at i f lt keeps s h =
      let (x, at_i) = interface_there k gives g narrow dequeues n ref id control shape i s h lt in
      rw (at_i, Ok, ◌▷◌, lift) (keeps x s h)

  -- One step of a loop that a negative result leaves.
  pub Keeps-loop :
      (m rest : Act (GadgetState W) ℤ)
      → Keeps m
      → Keeps rest
      → Keeps (m ▷ λ err. if is_neg err then ret err else rest)
  Keeps-loop m rest keeps later s h =
      ▷-Ok (λ _ s'. I s') _ m (λ err. if is_neg err then ret err else rest) s refl (keeps s h)
        (λ err s' h'. elim (Bool-cases (is_neg err)) [
          | inl neg ↦ rw neg h'
          | inr good ↦ rw good (later s' h')
        ])

  enable_gadget_endpoint-Keeps :
      (i j : ℕ) (x : InterfaceDesc)
      → i < shape.nb_int
      → get_elem? shape.interfaces i ≡ some x
      → j < b_num_endpoints x.desc
      → Keeps (enable_gadget_endpoint k g i j)
  unfolding enable_gadget_endpoint
  enable_gadget_endpoint-Keeps i j x lt at_i lt' s h =
      let (y, at_y, same) = interface-SameShape i x shape s.own.identity h.shape_eq at_i in
      let u : IsUsable y =
        interface-IsUsable k gives g narrow dequeues n ref id control shape i y s h lt at_y in
      let lt'' : j < b_num_endpoints y.desc = omega (arith, lt', ap b_num_endpoints same) in
      let (d, at_j, _) = get_elem?-drop y.endpoints j (omega (arith, lt'', u.few)) in
      ▷-Ok (λ _ s'. I s') _ (add_gadget_endpoint k g i j) _ s refl
        (add_gadget_endpoint-Gained k gives g narrow dequeues n ref id control shape i j y d s h
          at_y at_j u
          (Every-get_elem? IsUsableDesc (b_num_endpoints y.desc) y.endpoints j d lt'' at_j u.descs))
        (elim [
          | none ↦ λ s' h'. h'
          | some ep ↦ λ s' (h', new).
              await_host-Kept k gives g narrow dequeues n ref id control shape ep s' h' new
        ])

  enable_gadget_endpoints-Keeps :
      (m i j : ℕ) (x : InterfaceDesc)
      → i < shape.nb_int
      → get_elem? shape.interfaces i ≡ some x
      → j + m ≤ b_num_endpoints x.desc
      → Keeps (enable_gadget_endpoints k g m i j)
  unfolding enable_gadget_endpoints
  enable_gadget_endpoints-Keeps zero i j x lt at_i le = λ s h. h
  enable_gadget_endpoints-Keeps (suc m) i j x lt at_i le =
      Keeps-loop (enable_gadget_endpoint k g i j) (enable_gadget_endpoints k g m i (suc j))
        (enable_gadget_endpoint-Keeps i j x lt at_i (omega (arith, le)))
        (enable_gadget_endpoints-Keeps m i (suc j) x lt at_i (omega (arith, le)))

  enable_interface-Keeps : (i : ℕ) → i < shape.nb_int → Keeps (enable_interface k g i)
  unfolding enable_interface set_active put_interface_at interface_at
  enable_interface-Keeps i lt s h =
      let (x, at_i) = interface_there k gives g narrow dequeues n ref id control shape i s h lt in
      let u : IsUsable x =
        interface-IsUsable k gives g narrow dequeues n ref id control shape i x s h lt at_i in
      let (x0, at_0, same) =
        interface-SameShape i x s.own.identity shape (SameShape-sym shape s.own.identity h.shape_eq)
          at_i in
      let new : InterfaceDesc = record x { active = 1 } in
      let s1 : GadgetState W = record s {
        own = record s.own { identity = with_interface i new s.own.identity };
      } in
      let after : get_elem? s1.own.identity.interfaces i ≡ some new =
        get_elem?-set_self s.own.identity.interfaces i new
          (get_elem?-lt s.own.identity.interfaces i x at_i) in
      rw (at_i, Ok, ◌▷◌, lift, after)
        (enable_gadget_endpoints-Keeps (b_num_endpoints x.desc) i 0 x0 lt at_0
          (omega (arith, ap b_num_endpoints same)) s1
          (with_interface-Kept k gives g narrow dequeues n ref id control shape i x new s s1 h at_i
            refl refl (record { few = u.few; descs = u.descs }) refl
            (record {
              addressed = record {
                distinct = h.sound.addressed.distinct;
                before = h.sound.addressed.before;
              };
              served = h.sound.served;
              live_le = h.sound.live_le;
              table = h.sound.table;
            })
            h.here))

  disable_interface-Keeps : (i : ℕ) → i < shape.nb_int → Keeps (disable_interface k g i)
  disable_interface-Keeps i lt s h =
      disable_interface-Kept k gives g narrow dequeues n ref id control shape i s h lt

  pub Keeps-if :
      (b : Bool) (m m' : Act (GadgetState W) ℤ) → Keeps m → Keeps m' → Keeps (if b then m else m')
  Keeps-if true m m' h h' = h
  Keeps-if false m m' h h' = h'

  disable_active_from-Keeps : (m i : ℕ) → i + m ≤ shape.nb_int → Keeps (disable_active_from k g m i)
  unfolding disable_active_from
  disable_active_from-Keeps zero i le = λ s h. h
  disable_active_from-Keeps (suc m) i le = Keeps-interface_at i _ (omega (arith, le)) (λ x.
      Keeps-loop (if x.active == 0 then ret (pos 0) else disable_interface k g i)
        (disable_active_from k g m (suc i))
        (Keeps-if (x.active == 0) (ret (pos 0)) (disable_interface k g i) (λ s h. h)
          (disable_interface-Keeps i (omega (arith, le))))
        (disable_active_from-Keeps m (suc i) (omega (arith, le))))

  pub disable_active_interface-Keeps : Keeps (disable_active_interface k g)
  unfolding disable_active_interface
  disable_active_interface-Keeps s h =
      disable_active_from-Keeps s.own.identity.nb_int 0 (omega (arith, h.shape_eq.nb_eq)) s h

  enable_default_from-Keeps : (m i : ℕ) → i + m ≤ shape.nb_int → Keeps (enable_default_from k g m i)
  unfolding enable_default_from
  enable_default_from-Keeps zero i le = λ s h. h
  enable_default_from-Keeps (suc m) i le = Keeps-interface_at i _ (omega (arith, le)) (λ x.
      Keeps-loop (if b_alternate_setting x.desc == 0 then enable_interface k g i else ret (pos 0))
        (enable_default_from k g m (suc i))
        (Keeps-if (b_alternate_setting x.desc == 0) (enable_interface k g i) (ret (pos 0))
          (enable_interface-Keeps i (omega (arith, le))) (λ s h. h))
        (enable_default_from-Keeps m (suc i) (omega (arith, le))))

  pub enable_default_interface-Keeps : Keeps (enable_default_interface k g)
  unfolding enable_default_interface
  enable_default_interface-Keeps s h =
      enable_default_from-Keeps s.own.identity.nb_int 0 (omega (arith, h.shape_eq.nb_eq)) s h

  -- What select_from gives is an error, nothing, or an interface of the identity.
  abbrev Selected : ℤ ⊎ Option ℕ → GadgetState W → Type 0
  Selected (inl err) s = I s
  Selected (inr none) s = I s
  Selected (inr (some i)) s = I s × (i < shape.nb_int)

  abbrev IsIndex : Option ℕ → Type 0
  IsIndex none = Unit {0}
  IsIndex (some i) = i < shape.nb_int

  selected :
      (active : Option ℕ) (s : GadgetState W) → I s → IsIndex active → Selected (inr active) s
  selected none s h lt = h
  selected (some i) s h lt = (h, lt)

  select_from-Selected :
      (ifnumber alternative m i : ℕ) (active : Option ℕ) (s : GadgetState W)
      → i + m ≤ shape.nb_int
      → IsIndex active
      → I s
      → Ok Selected (select_from k g ifnumber alternative m i active s)
  unfolding select_from interface_at
  select_from-Selected ifnumber alternative zero i active s le lt h = selected active s h lt
  select_from-Selected ifnumber alternative (suc m) i active s le lt h =
      let (x, at_i) =
        interface_there k gives g narrow dequeues n ref id control shape i s h
          (omega (arith, le)) in
      rw (at_i, Ok, ◌▷◌, lift)
        (elim (Bool-cases (b_interface_number x.desc == ifnumber)) [
          | inr other ↦ rw other (
              select_from-Selected ifnumber alternative m (suc i) active s (omega (arith, le)) lt h)
          | inl same ↦ elim (Bool-cases (b_alternate_setting x.desc == alternative)) [
            | inl chosen ↦
                rw (same, chosen)
                  (select_from-Selected ifnumber alternative m (suc i) (some i) s
                    (omega (arith, le)) (omega (arith, le)) h)
            | inr passed ↦
                rw (same, passed)
                  (▷-Ok Selected _ (disable_interface k g i) _ s refl
                    (disable_interface-Keeps i (omega (arith, le)) s h)
                    (λ err s' h'. elim (Bool-cases (is_nonzero err)) [
                      | inl bad ↦ rw bad h'
                      | inr good ↦ rw good (
                          select_from-Selected ifnumber alternative m (suc i) active s'
                            (omega (arith, le)) lt h')
                    ]))
          ]
        ])

  pub set_interface-Keeps :
      (ifnumber alternative : ℕ) → Keeps (set_interface k g ifnumber alternative)
  unfolding set_interface
  set_interface-Keeps ifnumber alternative s h =
      ▷-Ok (λ _ s'. I s') _ (select_from k g ifnumber alternative s.own.identity.nb_int 0 none) _ s
        refl
        (select_from-Selected ifnumber alternative s.own.identity.nb_int 0 none s
          (omega (arith, h.shape_eq.nb_eq)) tt h)
        (elim [
          | inl err ↦ λ s' h'. h'
          | inr none ↦ λ s' h'. h'
          | inr (some i) ↦ λ s' (h', lt). enable_interface-Keeps i lt s' h'
        ])
