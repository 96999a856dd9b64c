-- ===== src/Gadget/Sound.antt =====
-- What holds of the state of the gadget between two events, and what keeps it.
use usbq_core.Gadget.{GadgetEndpoint, GadgetRequest, GadgetState}
use usbq_core.Gadget.Awaiting.{IsSink}
use usbq_core.Gadget.Completing.{IsReal}
use usbq_core.Gadget.Usable.{IsTable, SameShape}
use usbq_core.Identity.{Identity}
use usbq_core.Msg.{msg_get_data}
use usbq_core.Part.Accounts.{Grew, Pushed, push}
use usbq_core.Part.Addresses.{Addressed, Addressed-same, Before-later}
use usbq_core.Part.Cleanup.{objects}
use usbq_core.Part.Members.{
  Every-at_ref, Present, Present-agrees, Present-at_ref, objects-push, push-Distinct,
}
use usbq_core.Part.Table.{Distinct}
use usbq_core.Types.{Epid, is_ctrl, is_in}
use usbq_core.Prelude.{
  Every, arith, false, inl, inr, length, refl, subst, sym, true, ℕ, ◌+◌, ◌<◌, ◌≡◌, ◌≢◌, ◌≤◌, ◌⊎◌,
}

-- A completion of a control request finds the request of the host before the data.
abbrev pub Answerable : Epid → GadgetRequest → Type 0
Answerable id req = (is_ctrl id ≡ false) ⊎ (msg_get_data req.msg + 8 ≤ length req.msg.body)

-- An endpoint that every event can use: its identity exists, it is a control endpoint, or the host
-- reads from it, or it can wait for the host, and each of its requests can be completed.
pub record IsServed (ep : GadgetEndpoint) : Type 0 where
  pub real : IsReal ep.epid
  pub role : (is_ctrl ep.epid ≡ true) ⊎ (is_in ep.epid ≡ true) ⊎ IsSink ep
  pub requests : Every (Answerable ep.epid) ep.reqlist

-- The endpoints have distinct addresses, and all can be used; the objects of the endpoints and of
-- their requests are allocated, with `n` others; and the identity can be used.
pub record IsSound {W : Type 0} (n : ℕ) (s : GadgetState W) : Type 0 where
  pub addressed : Addressed s
  pub served : Every IsServed s.eplist
  pub live_le : objects s.eplist + n ≤ s.heap.live
  pub table : IsTable s.own.identity

push-IsServed :
    (ep : GadgetEndpoint) (req : GadgetRequest)
    → IsServed ep
    → Answerable ep.epid req
    → IsServed (push req ep)
push-IsServed ep req v a = record {
  real = v.real;
  role = elim v.role [
    | inl c ↦ inl c
    | inr (inl i) ↦ inr (inl i)
    | inr (inr r) ↦ inr (
        inr (record {
          desc = r.desc;
          desc_eq = r.desc_eq;
          narrow = r.narrow;
          kind = r.kind;
          sinks = r.sinks;
          packet = r.packet;
        }))
  ];
  requests = (a, v.requests);
}

module _ {W : Type 0} (n : ℕ) (s s' : GadgetState W) (v : IsSound n s) where
  -- More is allocated, or the kernel has moved on.
  pub Grew-IsSound : (m : ℕ) → Grew s m s' → IsSound n s'
  Grew-IsSound m grew = record {
    addressed = Addressed-same s s' v.addressed grew.same grew.next_le;
    served = subst (Every IsServed) (sym grew.same) v.served;
    live_le = rw grew.same (omega (arith, v.live_le, grew.live_eq));
    table = subst (λ o. IsTable o.identity) (sym grew.own_eq) v.table;
  }

  -- An endpoint has a request more.
  pub Pushed-IsSound :
      (ep : GadgetEndpoint) (req : GadgetRequest)
      → Present ep.ref ep.epid s.eplist
      → Answerable ep.epid req
      → Pushed s ep.ref req s'
      → IsSound n s'
  Pushed-IsSound ep req here a p = record {
    addressed = record {
      distinct =
          subst Distinct (sym p.pushed) (push-Distinct ep.ref req s.eplist v.addressed.distinct);
      before = subst (Every (λ x. x.ref < s'.heap.next)) (sym p.pushed) (
          Every-at_ref (λ x. x.ref < s'.heap.next) IsServed ep.ref (push req) (λ x _ h _. h)
            s.eplist (Before-later s.heap.next s'.heap.next s.eplist p.next_le v.addressed.before)
            v.served);
    };
    served = subst (Every IsServed) (sym p.pushed) (
        Every-at_ref IsServed (λ x. (x.ref ≢ ep.ref) ⊎ (x.epid ≡ ep.epid)) ep.ref (push req)
          (λ x e served. elim [
            | inl other ↦ absurd (other e)
            | inr same ↦ push-IsServed x req served (subst (λ id. Answerable id req) (sym same) a)
          ])
          s.eplist v.served (Present-agrees ep.ref ep.epid s.eplist v.addressed.distinct here));
    live_le = rw p.pushed (omega (arith, v.live_le, p.live_eq, objects-push ep.ref req s.eplist));
    table = subst (λ o. IsTable o.identity) (sym p.own_eq) v.table;
  }

-- What a call of ep_gadget_send_usb does: the endpoint has a request more that can be completed, or
-- there is nothing new.
abbrev pub Sends : {W : Type 0} → GadgetEndpoint → GadgetState W → GadgetState W → Type 0
Sends ep s s' =
    Grew s 0 s' ⊎ (req : GadgetRequest) × Answerable ep.epid req × Pushed s ep.ref req s'

-- The invariant, while the endpoint at `ref` stays there with its identity, and the identity of the
-- device keeps its shape.
pub record Kept {W : Type 0} (n ref : ℕ) (id : Epid) (shape : Identity) (s : GadgetState W)
    : Type 0 where
  pub sound : IsSound n s
  pub here : Present ref id s.eplist
  pub shape_eq : SameShape shape s.own.identity

module _ {W : Type 0} (n ref : ℕ) (id : Epid) (shape : Identity) (s s' : GadgetState W)
    (h : Kept n ref id shape s) where
  pub Grew-Kept : (m : ℕ) → Grew s m s' → Kept n ref id shape s'
  Grew-Kept m grew = record {
    sound = Grew-IsSound n s s' h.sound m grew;
    here = subst (Present ref id) (sym grew.same) h.here;
    shape_eq = subst (λ o. SameShape shape o.identity) (sym grew.own_eq) h.shape_eq;
  }

  pub Sends-Kept :
      (ep : GadgetEndpoint)
      → Present ep.ref ep.epid s.eplist
      → Sends ep s s'
      → Kept n ref id shape s'
  Sends-Kept ep there (inl grew) = Grew-Kept 0 grew
  Sends-Kept ep there (inr (req, a, p)) = record {
    sound = Pushed-IsSound n s s' h.sound ep req there a p;
    here =
        subst (Present ref id) (sym p.pushed)
          (Present-at_ref ref ep.ref id (push req) (λ x. (refl, refl)) s.eplist h.here);
    shape_eq = subst (λ o. SameShape shape o.identity) (sym p.own_eq) h.shape_eq;
  }
