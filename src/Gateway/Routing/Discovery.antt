-- ===== src/Gateway/Routing/Discovery.antt =====
-- backend/internal/wsgateway/k8s_discovery.go and config.go: the addresses that room-less requests go
-- to, from Kubernetes or from the environment.
pub mod Pool
pub mod Ready
use Prim.Native.String.{◌++◌ as ◌then◌}
use aviron.Base.{
  ℕ, String, Bool, false, not, List, [], ◌∷◌, ◌++◌, Option, none, some, if◌then◌else◌,
}
use aviron.Base.Strings.{decimal, split}
use aviron.Auth.{is_empty}

-- discoveryv1.Endpoint, as far as it is read
pub record Endpoint : Type 0 where
  -- Conditions.Ready, none for nil
  pub ready : Option Bool
  pub addresses : List String

-- discoveryv1.EndpointSlice; the ports' numbers, none for nil
pub record EndpointSlice : Type 0 where
  pub ports : List (Option ℕ)
  pub endpoints : List Endpoint

-- `ep.Conditions.Ready != nil && !*ep.Conditions.Ready`
abbrev pub is_unready : Endpoint → Bool
is_unready ep = elim ep.ready [ none ↦ false | some ready ↦ not ready ]

-- %s:%d
abbrev pub host_port : String → ℕ → String
host_port host port = (host then ":") then decimal port

-- The inner loop of recompute.
unfoldable pub ready_addresses : ℕ → List Endpoint → List String
ready_addresses port [] = []
ready_addresses port (ep ∷ eps) =
    let rest = ready_addresses port eps in
    if is_unready ep
    then rest
    else elim ep.addresses [ [] ↦ rest | host ∷ _ ↦ host_port host port ∷ rest ]

-- The addresses of one slice: its first port, if it has one.
unfoldable pub slice_backends : EndpointSlice → List String
slice_backends slice = elim slice.ports [
  | [] ↦ []
  | first ∷ _ ↦ elim first [ none ↦ [] | some port ↦ ready_addresses port slice.endpoints ]
]

-- recompute, over what the informer's store lists; an object of another type is `none`
unfoldable pub recompute : List (Option EndpointSlice) → List String
recompute [] = []
recompute (none ∷ objs) = recompute objs
recompute (some slice ∷ objs) = slice_backends slice ++ recompute objs

-- The pool of a discovery under a sequence of stores, each the one that an event left: empty at
-- first, and then that of the last event.
unfoldable pub pool_after : List (List (Option EndpointSlice)) → List String → List String
pool_after [] pool = pool
pool_after (store ∷ stores) pool = pool_after stores (recompute store)

-- The loop of splitAndTrim, with strings.TrimSpace.
unfoldable pub trim_parts : (String → String) → List String → List String
trim_parts trim_space [] = []
trim_parts trim_space (p ∷ ps) =
    let rest = trim_parts trim_space ps in
    if is_empty (trim_space p) then rest else trim_space p ∷ rest

-- splitAndTrim
unfoldable pub split_and_trim : (String → String) → String → List String
split_and_trim trim_space s = if is_empty s then [] else trim_parts trim_space (split 44 s)

-- LoadConfig, as far as the backends: `none` for its error
unfoldable pub load_backends : (String → String) → String → Option (List String)
load_backends trim_space instances =
    let backends = split_and_trim trim_space instances in
    elim backends [ [] ↦ none | b ∷ bs ↦ some (b ∷ bs) ]
