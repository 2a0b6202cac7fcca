-- ===== src/Networks/Routing.antt =====
-- frontend/lib/paymentRouting.ts: the plan of a payment between two networks.
use xdcid.Common.{ℕ, Bool, true, false, Option, some, List, [], ◌∷◌, ◌==◌, if◌then◌else◌}
use xdcid.Networks.{PaymentNetworkEnvironment, PaymentNetwork, get_payment_network}

pub data PaymentToken : Type 0 where
  usdc native : PaymentToken

pub data RouteStep : Type 0 where
  transfer approve burn attest mint : RouteStep

-- The `steps` of a route are a constant of its kind.
pub data PaymentRoute : Type 0 where
  direct : PaymentToken → PaymentNetwork → PaymentNetwork → PaymentRoute
  cctp_standard : PaymentNetwork → PaymentNetwork → PaymentRoute

pub steps : PaymentRoute → List RouteStep
steps (direct token source destination) = transfer ∷ []
steps (cctp_standard source destination) = approve ∷ burn ∷ attest ∷ mint ∷ []

pub data RouteResult : Type 0 where
  planned : PaymentRoute → RouteResult
  unsupported_chain native_cross_chain_unsupported : RouteResult

abbrev pub is_usdc : PaymentToken → Bool
is_usdc usdc = true
is_usdc native = false

plan_between : PaymentToken → Option PaymentNetwork → Option PaymentNetwork → RouteResult
plan_between token (some source) (some destination) =
    if source.chain_id == destination.chain_id
    then planned (direct token source destination)
    else if is_usdc token
    then planned (cctp_standard source destination)
    else native_cross_chain_unsupported
plan_between token _ _ = unsupported_chain

unfoldable pub plan_payment_route : PaymentNetworkEnvironment → ℕ → ℕ → PaymentToken → RouteResult
unfolding plan_between
plan_payment_route env source_chain_id destination_chain_id token =
    plan_between token (get_payment_network env source_chain_id)
      (get_payment_network env destination_chain_id)

pub record PaymentNetworkPair : Type 0 where
  pub source_chain_id : ℕ
  pub destination_chain_id : ℕ

pub swap_payment_networks : PaymentNetworkPair → PaymentNetworkPair
swap_payment_networks pair = record {
  source_chain_id = pair.destination_chain_id;
  destination_chain_id = pair.source_chain_id;
}
