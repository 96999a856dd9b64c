-- ===== src/Gadget/Binding.antt =====
-- ubq_bind and ubq_register of gadget.c.
use usbq_core.Action.{Ok, ret, ▷-Ok}
use usbq_core.Endpoint.{Kernel}
use usbq_core.Gadget.{GadgetEndpoint, GadgetState, Udc}
use usbq_core.Gadget.Dispatch.{ubq_bind, ubq_register}
use usbq_core.Gadget.State.{add_gadget_ep0_endpoint}
use usbq_core.Part.{call}
use usbq_core.Part.Accounts.{Gives}
use usbq_core.Part.Adding.{Added0, add_ep0_endpoint-Added0, ep0}
use usbq_core.Types.{dir_in, dir_out}
use usbq_core.Prelude.{
  Option, ap, arith, false, if◌then◌else◌, is_neg, is_nonzero, negsuc, none, pos, refl, some, suc,
  true, zero, ℕ, ℤ, ◌+◌, ◌∙◌, ◌∷◌, ◌≡◌,
}

-- The two directions of control endpoint 0 stand at the head of the list, for two objects each.
pub record Bound {W : Type 0} (s s' : GadgetState W) : Type 0 where
  pub epin : GadgetEndpoint
  pub epout : GadgetEndpoint
  pub eplist_eq : s'.eplist ≡ epout ∷ (epin ∷ s.eplist)
  pub in_eq : epin.epid ≡ ep0 dir_in
  pub out_eq : epout.epid ≡ ep0 dir_out
  pub live_eq : s'.heap.live ≡ 4 + s.heap.live

-- The flag and the identity stay; a result that is not negative comes with both endpoints.
abbrev pub Registered : {W : Type 0} → GadgetState W → ℤ → GadgetState W → Type 0
Registered s err s' = (s'.own ≡ s.own) × (is_neg err ≡ false → Bound s s')

-- What usb_gadget_probe_driver and the stack are taken to do: the driver is bound at once, and the
-- variable without a value holds a negative number.
pub record Binds {W : Type 0} (g : Udc W) : Type 0 where
  pub at_once : (w : W) → (g.probe_driver w).0 ≡ none
  pub negative : (w : W) → is_neg (g.uninitialised w) ≡ true

module _ {W : Type 0} (k : Kernel W) (gives : Gives k) (g : Udc W) (binds : Binds g) where
  failed_bind :
      (s0 s : GadgetState W)
      → s.own ≡ s0.own
      → Ok (Registered s0) (call (λ w. (g.uninitialised w, w)) s)
  failed_bind s0 s own =
      let negative : is_neg (g.uninitialised s.heap.world) ≡ true = binds.negative s.heap.world in
      (own, λ h. cc)

  second_bound :
      (s0 s : GadgetState W) (epin : GadgetEndpoint) (o : Option GadgetEndpoint)
      (s' : GadgetState W)
      → Added0 s0 dir_in (some epin) s
      → Added0 s dir_out o s'
      → Ok
          (Registered s0)
          (elim o [ none ↦ call (λ w. (g.uninitialised w, w)) s' | some epout ↦ ret (pos 0) s' ])
  second_bound s0 s epin none s' (list, in_eq, _, _, live, own) grew =
      failed_bind s0 s' (grew.own_eq ∙ own)
  second_bound s0 s epin (some epout) s' (list, in_eq, _, _, live, own)
        (list', out_eq, _, _, live', own') =
      (
        own' ∙ own,
        λ _. record {
          epin = epin;
          epout = epout;
          eplist_eq = list' ∙ ap (λ l. epout ∷ l) list;
          in_eq = in_eq;
          out_eq = out_eq;
          live_eq = omega (arith, live, live');
        },
      )

  add_gadget_ep0_endpoint-Added0 :
      (dir : ℕ) (s : GadgetState W) → Ok (Added0 s dir) (add_gadget_ep0_endpoint k g dir s)
  unfolding add_gadget_ep0_endpoint
  add_gadget_ep0_endpoint-Added0 dir s =
      add_ep0_endpoint-Added0 k gives (g.ep0 s.heap.world) 68 dir s

  ubq_bind-Registered : (s : GadgetState W) → Ok (Registered s) (ubq_bind k g s)
  unfolding ubq_bind
  ubq_bind-Registered s =
      ▷-Ok (Registered s) _ (add_gadget_ep0_endpoint k g dir_in) _ _ refl
        (add_gadget_ep0_endpoint-Added0 dir_in _)
        (elim [
          | none ↦ λ s' grew. failed_bind s s' grew.own_eq
          | some epin ↦ λ s' a.
              ▷-Ok (Registered s) _ (add_gadget_ep0_endpoint k g dir_out) _ s' refl
                (add_gadget_ep0_endpoint-Added0 dir_out s')
                (elim [
                  | none ↦ λ s'' b. second_bound s s' epin none s'' a b
                  | some epout ↦ λ s'' b. second_bound s s' epin (some epout) s'' a b
                ])
        ])

  -- What is before the call differs from `s0` within the kernel only.
  abbrev probed : W → GadgetState W → GadgetState W
  probed w s0 = record s0 { heap = record s0.heap { world = w } }

  before_probe :
      (w : W) (s0 : GadgetState W) (err : ℤ) (s : GadgetState W)
      → Registered (probed w s0) err s
      → Registered s0 err s
  before_probe w s0 err s (own, bound) = (
    own,
    λ h.
        let b = bound h in
        record {
          epin = b.epin;
          epout = b.epout;
          eplist_eq = b.eplist_eq;
          in_eq = b.in_eq;
          out_eq = b.out_eq;
          live_eq = b.live_eq;
        },
  )

  after_bind :
      (s0 : GadgetState W) (err : ℤ) (s : GadgetState W)
      → Registered s0 err s
      → Ok (Registered s0) ((if is_nonzero err then ret err else call g.udc_start) s)
  after_bind s0 (pos zero) s (own, bound) = (
    own,
    λ _.
        let b = bound refl in
        record {
          epin = b.epin;
          epout = b.epout;
          eplist_eq = b.eplist_eq;
          in_eq = b.in_eq;
          out_eq = b.out_eq;
          live_eq = b.live_eq;
        },
  )
  after_bind s0 (pos (suc n)) s r = r
  after_bind s0 (negsuc n) s r = r

  pub ubq_register-Registered : (s : GadgetState W) → Ok (Registered s) (ubq_register k g s)
  unfolding ubq_register
  ubq_register-Registered s =
      rw (binds.at_once s.heap.world, ubq_register)
        (▷-Ok (Registered s) _ (ubq_bind k g)
          (λ err. if is_nonzero err then ret err else call g.udc_start)
          (probed (g.probe_driver s.heap.world).1 s) refl (ubq_bind-Registered _)
          (λ err s' r. after_bind s err s' (before_probe _ s err s' r)))
