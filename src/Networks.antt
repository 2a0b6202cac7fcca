-- ===== src/Networks.antt =====
-- frontend/config/paymentNetworks.ts: the payment networks of the two deployments. A chain id is a
-- natural number, since any other number is the id of no network.
pub mod Routing
pub mod Capabilities
pub mod Agreement
mod Tests
use xdcid.Common.{
  ℕ, Bool, true, false, Option, none, some, List, [], ◌∷◌, String, Text, text, find, ◌==◌,
  if◌then◌else◌,
}

pub data PaymentNetworkEnvironment : Type 0 where
  mainnet testnet : PaymentNetworkEnvironment

pub record PaymentNetwork : Type 0 where
  pub key : String
  pub name : String
  pub chain_id : ℕ
  pub circle_domain : ℕ
  pub native_symbol : String
  pub usdc_address : Text
  pub explorer_url : String

unfoldable pub ethereum : PaymentNetwork
ethereum = record {
  key = "ethereum";
  name = "Ethereum";
  chain_id = 1;
  circle_domain = 0;
  native_symbol = "ETH";
  usdc_address = text "0xA0b86991c6218b36c1d19D4a2e9Eb0cE3606eB48";
  explorer_url = "https://etherscan.io";
}

unfoldable pub xdc : PaymentNetwork
xdc = record {
  key = "xdc";
  name = "XDC Network";
  chain_id = 50;
  circle_domain = 18;
  native_symbol = "XDC";
  usdc_address = text "0xfA2958CB79b0491CC627c1557F441eF849Ca8eb1";
  explorer_url = "https://xdcscan.com";
}

unfoldable pub polygon : PaymentNetwork
polygon = record {
  key = "polygon";
  name = "Polygon";
  chain_id = 137;
  circle_domain = 7;
  native_symbol = "POL";
  usdc_address = text "0x3c499c542cEF5E3811e1192ce70d8cC03d5c3359";
  explorer_url = "https://polygonscan.com";
}

unfoldable pub base : PaymentNetwork
base = record {
  key = "base";
  name = "Base";
  chain_id = 8453;
  circle_domain = 6;
  native_symbol = "ETH";
  usdc_address = text "0x833589fCD6eDb6E08f4c7C32D4f71b54bdA02913";
  explorer_url = "https://basescan.org";
}

unfoldable pub arbitrum : PaymentNetwork
arbitrum = record {
  key = "arbitrum";
  name = "Arbitrum One";
  chain_id = 42161;
  circle_domain = 3;
  native_symbol = "ETH";
  usdc_address = text "0xaf88d065e77c8cC2239327C5EDb3A432268e5831";
  explorer_url = "https://arbiscan.io";
}

unfoldable pub ethereum_sepolia : PaymentNetwork
ethereum_sepolia = record {
  key = "ethereum-sepolia";
  name = "Ethereum Sepolia";
  chain_id = 11155111;
  circle_domain = 0;
  native_symbol = "ETH";
  usdc_address = text "0x1c7D4B196Cb0C7B01d743Fbc6116a902379C7238";
  explorer_url = "https://sepolia.etherscan.io";
}

unfoldable pub xdc_apothem : PaymentNetwork
xdc_apothem = record {
  key = "xdc-apothem";
  name = "XDC Apothem";
  chain_id = 51;
  circle_domain = 18;
  native_symbol = "TXDC";
  usdc_address = text "0xb5AB69F7bBada22B28e79C8FFAECe55eF1c771D4";
  explorer_url = "https://testnet.xdcscan.com";
}

unfoldable pub polygon_amoy : PaymentNetwork
polygon_amoy = record {
  key = "polygon-amoy";
  name = "Polygon Amoy";
  chain_id = 80002;
  circle_domain = 7;
  native_symbol = "POL";
  usdc_address = text "0x41E94Eb019C0762f9Bfcf9Fb1E58725BfB0e7582";
  explorer_url = "https://amoy.polygonscan.com";
}

unfoldable pub base_sepolia : PaymentNetwork
base_sepolia = record {
  key = "base-sepolia";
  name = "Base Sepolia";
  chain_id = 84532;
  circle_domain = 6;
  native_symbol = "ETH";
  usdc_address = text "0x036CbD53842c5426634e7929541eC2318f3dCF7e";
  explorer_url = "https://sepolia.basescan.org";
}

unfoldable pub arbitrum_sepolia : PaymentNetwork
arbitrum_sepolia = record {
  key = "arbitrum-sepolia";
  name = "Arbitrum Sepolia";
  chain_id = 421614;
  circle_domain = 3;
  native_symbol = "ETH";
  usdc_address = text "0x75faf114eafb1BDbe2F0316DF893fd58CE46AA4d";
  explorer_url = "https://sepolia.arbiscan.io";
}

unfoldable pub mainnet_payment_networks : List PaymentNetwork
unfolding ethereum xdc polygon base arbitrum
mainnet_payment_networks = ethereum ∷ xdc ∷ polygon ∷ base ∷ arbitrum ∷ []

unfoldable pub testnet_payment_networks : List PaymentNetwork
unfolding ethereum_sepolia xdc_apothem polygon_amoy base_sepolia arbitrum_sepolia
testnet_payment_networks =
    ethereum_sepolia ∷ xdc_apothem ∷ polygon_amoy ∷ base_sepolia ∷ arbitrum_sepolia ∷ []

unfoldable pub payment_networks : PaymentNetworkEnvironment → List PaymentNetwork
unfolding mainnet_payment_networks testnet_payment_networks
payment_networks mainnet = mainnet_payment_networks
payment_networks testnet = testnet_payment_networks

unfoldable pub get_payment_network : PaymentNetworkEnvironment → ℕ → Option PaymentNetwork
unfolding payment_networks
get_payment_network env chain_id = find (λ n. n.chain_id == chain_id) (payment_networks env)

-- The entries of `MULTICHAIN_RECORD_CHAIN_IDS`.
abbrev multichain_record_chain_ids : List (ℕ × ℕ)
multichain_record_chain_ids =
    (1, 1)
    ∷ (50, 50)
    ∷ (51, 50)
    ∷ (137, 137)
    ∷ (8453, 8453)
    ∷ (42161, 42161)
    ∷ (80002, 137)
    ∷ (84532, 8453)
    ∷ (421614, 42161)
    ∷ (11155111, 1)
    ∷ []

entry : ℕ → List (ℕ × ℕ) → Option ℕ
entry key [] = none
entry key ((k, v) ∷ table) = if k == key then some v else entry key table

unfoldable pub multichain_record_chain_id : ℕ → Option ℕ
unfolding entry
multichain_record_chain_id payment_chain_id = entry payment_chain_id multichain_record_chain_ids
