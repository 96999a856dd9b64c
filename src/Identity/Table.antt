-- ===== src/Identity/Table.antt =====
-- The interface table after the loop over the interfaces.
use usbq_core.Identity.{HostInterface, InterfaceDesc, max_endpoint_interface}
use usbq_core.Identity.Endpoints.{stored_endpoints, take-with_endpoints}
use usbq_core.Identity.Interfaces.{
  Parsed, Sized, Sized-get, Sized-set, front, interface_loop-step, length-altsetting, stored,
}
use usbq_core.Identity.Packet.{
  AllAltsettings, IsAltsetting, altsetting_bytes, endpoint_bytes, wire_desc,
}
use usbq_core.Identity.Parse.{Run, done, interface_loop}
use usbq_core.Prelude.{
  Bytes, List, [], add-zero, ap, append-nil, append_assoc, arith, get_elem?, le_trans, length,
  length-append, length-fill, length-set, refl, set, some, suc, take, take-suc-set, zero, ℕ, ◌++◌,
  ◌+◌, ◌<◌, ◌^◌, ◌∙◌, ◌∷◌, ◌≡◌, ◌≤◌,
}

interface_loop-done :
    (fuel : ℕ) (table : List InterfaceDesc) (i : ℕ) (buffer : Bytes)
    → interface_loop (suc fuel) table i buffer 0 ≡ done table i
unfolding interface_loop
interface_loop-done fuel table i buffer = refl

-- What the loop leaves for altsettings from interface `i` on.
pub record Stores (alts : List HostInterface) (tail : Bytes) (table : List InterfaceDesc) (i : ℕ)
    (r : Run) : Type 0 where
  pub table' : List InterfaceDesc
  pub stored_list : List InterfaceDesc
  pub result : r ≡ done table' (i + length alts)
  pub prefix : take (i + length alts) table' ≡ take i table ++ stored_list
  pub parsed : Parsed alts tail stored_list
  pub length_eq : length table' ≡ length table
  pub sized : Sized table'

module _ (alt : HostInterface) (w : IsAltsetting alt) (alts : List HostInterface) (tail : Bytes)
    (tail_len : 2 ≤ length tail) where
  abbrev behind : Bytes
  behind = altsetting_bytes alts ++ tail

  abbrev behind_len : 2 ≤ length behind
  behind_len = le_trans tail_len (rw length-append (omega arith))

  altsetting_front : altsetting_bytes (alt ∷ alts) ++ tail ≡ front alt w behind behind_len
  unfolding altsetting_bytes front
  altsetting_front =
      append_assoc (wire_desc alt.desc) (endpoint_bytes alt.endpoint ++ altsetting_bytes alts) tail
      ∙ ap (◌++◌ (wire_desc alt.desc))
          (append_assoc (endpoint_bytes alt.endpoint) (altsetting_bytes alts) tail)

  -- The first altsetting, and then the others.
  Stores-cons :
      (fuel : ℕ) (table : List InterfaceDesc) (i : ℕ) (x : InterfaceDesc)
      → get_elem? table i ≡ some x
      → length x.endpoints ≡ max_endpoint_interface
      → i < length table
      → length (altsetting_bytes (alt ∷ alts)) < 2 ^ 31
      → Stores alts tail (set table i (stored alt w behind behind_len x)) (suc i) (
          interface_loop fuel
            (set table i (stored alt w behind behind_len x))
            (suc i)
            behind
            (length (altsetting_bytes alts)))
      → Stores (alt ∷ alts) tail table i (
          interface_loop
            (suc fuel)
            table
            i
            (altsetting_bytes (alt ∷ alts) ++ tail)
            (length (altsetting_bytes (alt ∷ alts))))
  Stores-cons fuel table i x here eight lt small rest = record {
    table' = rest.table';
    length_eq = rest.length_eq ∙ length-set table i (stored alt w behind behind_len x);
    sized = rest.sized;
    stored_list = stored alt w behind behind_len x ∷ rest.stored_list;
    result =
        rw (altsetting_front, length-altsetting alt alts w)
          (interface_loop-step alt w behind behind_len fuel table i x
              (length (altsetting_bytes alts)) here (omega (arith, length-altsetting alt alts w))
            ∙ rw (next, rest.result, count));
    prefix =
        rw (← count, rest.prefix, take-suc-set table i (stored alt w behind behind_len x) lt)
          (append_assoc (take i table) (stored alt w behind behind_len x ∷ []) rest.stored_list);
    parsed = (
      refl,
      refl,
      take-with_endpoints x alt.endpoint behind (omega (arith, w.few, eight)),
      rest.parsed,
    );
  }
    where
      next : i + 1 ≡ suc i
      next = omega arith

      count : suc i + length alts ≡ i + suc (length alts)
      count = omega arith

-- On the bytes of well-formed altsettings, as many as the table has room for, the loop ends, stores
-- each altsetting in order and touches no memory that it must not.
-- Two bytes of memory follow, the bytes are fewer than 2 ^ 31, and a round is given for each byte
-- and one more.
pub interface_loop-Stores :
    (alts : List HostInterface) (fuel : ℕ) (table : List InterfaceDesc) (i : ℕ) (tail : Bytes)
    → AllAltsettings alts
    → Sized table
    → i + length alts ≤ length table
    → length (altsetting_bytes alts) < 2 ^ 31
    → 2 ≤ length tail
    → length (altsetting_bytes alts) < fuel
    → Stores alts tail table i (
        interface_loop fuel table i
          (altsetting_bytes alts ++ tail)
          (length (altsetting_bytes alts)))
interface_loop-Stores alts zero table i tail w s room small behind enough = absurd (omega arith)
interface_loop-Stores [] (suc fuel) table i tail w s room small behind enough = record {
  table' = table;
  length_eq = refl;
  sized = s;
  stored_list = [];
  result = rw add-zero (unfold altsetting_bytes in interface_loop-done fuel table i tail);
  prefix = rw (add-zero, append-nil);
  parsed = refl;
}
interface_loop-Stores (alt ∷ alts) (suc fuel) table i tail (w, ws) s room small behind enough =
    let (x, here, eight) = Sized-get table i (omega arith) s in
    Stores-cons alt w alts tail behind fuel table i x here eight (omega arith) small (
      interface_loop-Stores alts fuel
        (set table i
          (stored alt w (altsetting_bytes alts ++ tail) (behind_len alt w alts tail behind) x))
        (suc i) tail ws
        (Sized-set table i
          (stored alt w (altsetting_bytes alts ++ tail) (behind_len alt w alts tail behind) x)
          (length-fill x.endpoints 0 (stored_endpoints alt.endpoint (altsetting_bytes alts ++ tail))
            ∙ eight)
          s)
        (omega (
          arith,
          length-set table i
              (stored alt w (altsetting_bytes alts ++ tail) (behind_len alt w alts tail behind) x),
        ))
        (omega (arith, length-altsetting alt alts w)) behind
        (omega (arith, length-altsetting alt alts w)))
