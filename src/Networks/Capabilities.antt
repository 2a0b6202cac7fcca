-- ===== src/Networks/Capabilities.antt =====
-- frontend/lib/paymentRouteCapabilities.ts: which transfers a pair of networks supports.
use xdcid.Common.{
  ℕ, Bool, true, false, not, ◌&&◌, List, [], ◌∷◌, ◌++◌, map, Text, text, text_eq, decimal, split,
  trim, filter, any, ◌==◌, if◌then◌else◌,
}

pub data AutomaticForwardingStatus : Type 0 where
  mainnet_enabled mainnet_preview testnet_enabled testnet_validated unavailable :
      AutomaticForwardingStatus

pub record PaymentRouteCapability : Type 0 where
  pub standard_transfer : Bool
  pub automatic_forwarding : AutomaticForwardingStatus

abbrev pub mainnet_payment_chain_ids : List ℕ
mainnet_payment_chain_ids = 1 ∷ 50 ∷ 137 ∷ 8453 ∷ 42161 ∷ []

abbrev pub testnet_payment_chain_ids : List ℕ
testnet_payment_chain_ids = 11155111 ∷ 51 ∷ 80002 ∷ 84532 ∷ 421614 ∷ []

abbrev pub supported_payment_chain_ids : List ℕ
supported_payment_chain_ids = mainnet_payment_chain_ids ++ testnet_payment_chain_ids

-- `${sourceChainId}:${destinationChainId}`.
unfoldable pub route_key : ℕ → ℕ → Text
route_key source_chain_id destination_chain_id =
    decimal source_chain_id ++ (text ":" ++ decimal destination_chain_id)

routes_from : List ℕ → ℕ → List Text
routes_from chain_ids source =
    map (route_key source) (filter (λ destination. not (destination == source)) chain_ids)

-- The keys of the routes from the sources of the first list to the networks of the second.
routes_between : List ℕ → List ℕ → List Text
routes_between [] chain_ids = []
routes_between (source ∷ sources) chain_ids =
    routes_from chain_ids source ++ routes_between sources chain_ids

unfoldable pub build_cross_chain_routes : List ℕ → List Text
unfolding routes_from routes_between route_key decimal
build_cross_chain_routes chain_ids = routes_between chain_ids chain_ids

abbrev pub has : List Text → Text → Bool
has keys key = any (text_eq key) keys

abbrev pub has_id : List ℕ → ℕ → Bool
has_id ids id = any (λ i. id == i) ids

is_filled : Text → Bool
is_filled [] = false
is_filled (_ ∷ _) = true

preview_route_set : Text → List Text
unfolding is_filled
preview_route_set preview_routes = filter is_filled (map trim (split b',' preview_routes))

abbrev pub capability : Bool → AutomaticForwardingStatus → PaymentRouteCapability
capability transfer forwarding = record {
  standard_transfer = transfer;
  automatic_forwarding = forwarding;
}

unfoldable pub get_payment_route_capability : ℕ → ℕ → Text → PaymentRouteCapability
unfolding build_cross_chain_routes route_key decimal preview_route_set text_eq
get_payment_route_capability source_chain_id destination_chain_id preview_routes =
    let supported =
      has_id supported_payment_chain_ids source_chain_id
      && has_id supported_payment_chain_ids destination_chain_id in
    let key = route_key source_chain_id destination_chain_id in
    if not supported
    then capability false unavailable
    else if source_chain_id == destination_chain_id
    then capability true unavailable
    else if has (build_cross_chain_routes testnet_payment_chain_ids) key
    then capability true testnet_enabled
    else if has (build_cross_chain_routes mainnet_payment_chain_ids) key
    then capability true mainnet_enabled
    else if has (preview_route_set preview_routes) key
    then capability true mainnet_preview
    else capability true unavailable
