-- ===== src/Gateway/Routing/Discovery/Pool.antt =====
-- The pool of a discovery and the endpoints that are ready.
use aviron.Base.{
  ℕ, String, ◌≡◌, refl, sym, ap, ◌∙◌, subst, false, List, [], ◌∷◌, Option, none, some, All, In,
  All-append, In-left, In-right, All-map, here, there, arith, if_rule, match_rule, list_rule,
}
use aviron.Gateway.Routing.Discovery.{
  Endpoint, EndpointSlice, is_unready, host_port, ready_addresses, slice_backends, recompute,
}

-- An address: the first one of an endpoint that is not marked unready, with the first port of a slice
-- in the store.
pub record IsReady (objs : List (Option EndpointSlice)) (a : String) : Type 0 where
  pub slice : EndpointSlice
  pub listed : In (some slice) objs
  pub port : ℕ
  pub ports : List (Option ℕ)
  pub first_port : slice.ports ≡ some port ∷ ports
  pub ep : Endpoint
  pub holds : In ep slice.endpoints
  pub ready : is_unready ep ≡ false
  pub host : String
  pub hosts : List String
  pub first_address : ep.addresses ≡ host ∷ hosts
  pub same : a ≡ host_port host port

-- The same of the endpoints of one slice.
record IsReadyIn (port : ℕ) (eps : List Endpoint) (a : String) : Type 0 where
  ep : Endpoint
  holds : In ep eps
  ready : is_unready ep ≡ false
  host : String
  hosts : List String
  first_address : ep.addresses ≡ host ∷ hosts
  same : a ≡ host_port host port

IsReadyIn-later :
    (port : ℕ) (e : Endpoint) (eps : List Endpoint) (a : String)
    → IsReadyIn port eps a
    → IsReadyIn port (e ∷ eps) a
IsReadyIn-later port e eps a h = record {
  ep = h.ep;
  holds = there h.holds;
  ready = h.ready;
  host = h.host;
  hosts = h.hosts;
  first_address = h.first_address;
  same = h.same;
}

ready_addresses_sound :
    (port : ℕ) (eps : List Endpoint) → All (IsReadyIn port eps) (ready_addresses port eps)
unfolding ready_addresses
ready_addresses_sound port [] = tt
ready_addresses_sound port (e ∷ eps) =
    let later =
      All-map (IsReadyIn port eps) P (ready_addresses port eps) (IsReadyIn-later port e eps)
        (ready_addresses_sound port eps) in
    if_rule (All P) (is_unready e) (λ _. later)
      (λ f. list_rule (All P) e.addresses later (λ host hosts q. (
        record {
          ep = e;
          holds = here;
          ready = f;
          host = host;
          hosts = hosts;
          first_address = q;
          same = refl;
        },
        later,
      )))
  where
    P : String → Type 0
    P = IsReadyIn port (e ∷ eps)

ready_addresses_complete :
    (port : ℕ) (eps : List Endpoint) (ep : Endpoint) (host : String) (hosts : List String)
    → In ep eps
    → is_unready ep ≡ false
    → ep.addresses ≡ host ∷ hosts
    → In (host_port host port) (ready_addresses port eps)
unfolding ready_addresses
ready_addresses_complete port [] ep host hosts i f q = elim i [ ]
ready_addresses_complete port (e ∷ eps) _ host hosts here f q =
    if_rule P (is_unready e) (λ t. ground (arith, f, t))
      (λ _.
        subst
          (λ l. P (elim l as (λ _. List String) [
            | [] ↦ ready_addresses port eps
            | h ∷ hs ↦ host_port h port ∷ ready_addresses port eps
          ]))
          (sym q) here)
  where
    P : List String → Type 0
    P = In (host_port host port)
ready_addresses_complete port (e ∷ eps) ep host hosts (there i) f q =
    let later = ready_addresses_complete port eps ep host hosts i f q in
    if_rule P (is_unready e) (λ _. later)
      (λ _. list_rule P e.addresses later (λ h hs _. there later))
  where
    P : List String → Type 0
    P = In (host_port host port)

-- What a slice gives is ready, in every store that has the slice.
slice_backends_sound :
    (objs : List (Option EndpointSlice)) (slice : EndpointSlice)
    → In (some slice) objs
    → All (IsReady objs) (slice_backends slice)
unfolding slice_backends
slice_backends_sound objs slice listed =
    list_rule (All (IsReady objs)) slice.ports tt (λ first ports q.
      match_rule (All (IsReady objs)) first (λ _. tt)
        (λ port e.
          All-map (IsReadyIn port slice.endpoints) (IsReady objs)
            (ready_addresses port slice.endpoints)
            (λ a h. record {
              slice = slice;
              listed = listed;
              port = port;
              ports = ports;
              first_port = q ∙ ap (λ p. p ∷ ports) e;
              ep = h.ep;
              holds = h.holds;
              ready = h.ready;
              host = h.host;
              hosts = h.hosts;
              first_address = h.first_address;
              same = h.same;
            })
            (ready_addresses_sound port slice.endpoints)))

IsReady-later :
    (o : Option EndpointSlice) (objs : List (Option EndpointSlice)) (a : String)
    → IsReady objs a
    → IsReady (o ∷ objs) a
IsReady-later o objs a h = record {
  slice = h.slice;
  listed = there h.listed;
  port = h.port;
  ports = h.ports;
  first_port = h.first_port;
  ep = h.ep;
  holds = h.holds;
  ready = h.ready;
  host = h.host;
  hosts = h.hosts;
  first_address = h.first_address;
  same = h.same;
}

pub recompute_sound : (objs : List (Option EndpointSlice)) → All (IsReady objs) (recompute objs)
unfolding recompute
recompute_sound [] = tt
recompute_sound (none ∷ objs) =
    All-map (IsReady objs) (IsReady (none ∷ objs)) (recompute objs) (IsReady-later none objs)
      (recompute_sound objs)
recompute_sound (some slice ∷ objs) =
    All-append (IsReady (some slice ∷ objs)) (slice_backends slice) (recompute objs)
      (slice_backends_sound (some slice ∷ objs) slice here)
      (All-map (IsReady objs) (IsReady (some slice ∷ objs)) (recompute objs)
        (IsReady-later (some slice) objs) (recompute_sound objs))

recompute_listed :
    (objs : List (Option EndpointSlice)) (slice : EndpointSlice) (a : String)
    → In (some slice) objs
    → In a (slice_backends slice)
    → In a (recompute objs)
unfolding recompute
recompute_listed [] slice a i h = elim i [ ]
recompute_listed (some _ ∷ objs) slice a here h = In-left (recompute objs) h
recompute_listed (none ∷ objs) slice a (there i) h = recompute_listed objs slice a i h
recompute_listed (some s ∷ objs) slice a (there i) h =
    In-right (slice_backends s) (recompute_listed objs slice a i h)

pub recompute_complete :
    (objs : List (Option EndpointSlice)) (a : String) → IsReady objs a → In a (recompute objs)
unfolding slice_backends
recompute_complete objs a h = recompute_listed objs h.slice a h.listed (
    subst (λ x. In x (slice_backends h.slice)) (sym h.same)
      (subst
        (λ ps. In (host_port h.host h.port) (elim ps as (λ _. List String) [
          | [] ↦ []
          | first ∷ _ ↦ elim first [
            | none ↦ []
            | some port ↦ ready_addresses port h.slice.endpoints
          ]
        ]))
        (sym h.first_port)
        (ready_addresses_complete h.port h.slice.endpoints h.ep h.host h.hosts h.holds h.ready
          h.first_address)))
