-- ===== src/Networks/Agreement.antt =====
-- The planner of routes and the table of capabilities agree.
use xdcid.Common.{
  ℕ, ◌≡◌, refl, inl, inr, true, some, Text, find_holds, All, All-find, ◌==◌, ==_iff, if◌then◌else◌,
  arith, Option-cases, subst, Bool-cases, ◌≢◌,
}
use xdcid.Networks.{
  PaymentNetworkEnvironment, mainnet, testnet, PaymentNetwork, payment_networks,
  get_payment_network,
}
use xdcid.Networks.Routing.{
  PaymentToken, usdc, PaymentRoute, direct, cctp_standard, planned, plan_payment_route,
}
use xdcid.Networks.Capabilities.{
  get_payment_route_capability, mainnet_enabled, testnet_enabled, unavailable,
  PaymentRouteCapability, AutomaticForwardingStatus, capability,
}

abbrev pub enabled_in : PaymentNetworkEnvironment → AutomaticForwardingStatus
enabled_in mainnet = mainnet_enabled
enabled_in testnet = testnet_enabled

-- The capability of a pair of networks of one deployment.
abbrev expected :
    PaymentNetworkEnvironment → PaymentNetwork → PaymentNetwork → PaymentRouteCapability
expected env m n =
    if m.chain_id == n.chain_id
    then capability true unavailable
    else capability true (enabled_in env)

abbrev Agree : PaymentNetworkEnvironment → Text → PaymentNetwork → PaymentNetwork → Type 0
Agree env preview m n =
    get_payment_route_capability m.chain_id n.chain_id preview ≡ expected env m n

-- Every pair of networks of a deployment, by evaluation.
table :
    (env : PaymentNetworkEnvironment) (preview : Text)
    → All (λ m. All (Agree env preview m) (payment_networks env)) (payment_networks env)
unfolding payment_networks get_payment_route_capability
table mainnet preview = (
  (refl, (refl, (refl, (refl, (refl, tt))))),
  (
    (refl, (refl, (refl, (refl, (refl, tt))))),
    (
      (refl, (refl, (refl, (refl, (refl, tt))))),
      (
        (refl, (refl, (refl, (refl, (refl, tt))))),
        ((refl, (refl, (refl, (refl, (refl, tt))))), tt),
      ),
    ),
  ),
)
table testnet preview = (
  (refl, (refl, (refl, (refl, (refl, tt))))),
  (
    (refl, (refl, (refl, (refl, (refl, tt))))),
    (
      (refl, (refl, (refl, (refl, (refl, tt))))),
      (
        (refl, (refl, (refl, (refl, (refl, tt))))),
        ((refl, (refl, (refl, (refl, (refl, tt))))), tt),
      ),
    ),
  ),
)

get_payment_network-chain_id :
    (env : PaymentNetworkEnvironment) (id : ℕ) (n : PaymentNetwork)
    → get_payment_network env id ≡ some n
    → n.chain_id ≡ id
unfolding get_payment_network
get_payment_network-chain_id env id n e =
    (==_iff n.chain_id id).0 (find_holds (λ m. m.chain_id == id) (payment_networks env) n e)

networks-Agree :
    (env : PaymentNetworkEnvironment) (preview : Text) (s d : ℕ) (m n : PaymentNetwork)
    → get_payment_network env s ≡ some m
    → get_payment_network env d ≡ some n
    → get_payment_route_capability s d preview ≡ expected env m n
unfolding get_payment_network
networks-Agree env preview s d m n e f =
    let nets = payment_networks env in
    let row =
      All-find (λ m. All (Agree env preview m) nets) (λ k. k.chain_id == s) nets m
        (table env preview) e in
    let cell : Agree env preview m n =
      All-find (Agree env preview m) (λ k. k.chain_id == d) nets n row f in
    rw (← get_payment_network-chain_id env s m e, ← get_payment_network-chain_id env d n f) cell

-- What a planned route promises.
pub data IsPlanned (env : PaymentNetworkEnvironment) (s d : ℕ) (preview : Text)
    (token : PaymentToken) : PaymentRoute → Type 0 where
  same_network :
      (m n : PaymentNetwork)
      → m.chain_id ≡ s
      → n.chain_id ≡ d
      → s ≡ d
      → get_payment_route_capability s d preview ≡ capability true unavailable
      → IsPlanned env s d preview token (direct token m n)
  across :
      (m n : PaymentNetwork)
      → m.chain_id ≡ s
      → n.chain_id ≡ d
      → s ≢ d
      → token ≡ usdc
      → get_payment_route_capability s d preview ≡ capability true (enabled_in env)
      → IsPlanned env s d preview token (cctp_standard m n)

-- A planned route joins the two networks that were asked for: directly if they are one network, and
-- by a USDC burn otherwise. The table of capabilities allows the standard transfer of either, and
-- automatic forwarding exactly for the second, whatever the list of preview routes.
pub plan_payment_route-IsPlanned :
    (env : PaymentNetworkEnvironment) (s d : ℕ) (preview : Text) (token : PaymentToken)
    (r : PaymentRoute)
    → plan_payment_route env s d token ≡ planned r
    → IsPlanned env s d preview token r
unfolding plan_payment_route
plan_payment_route-IsPlanned env s d preview token r e =
    elim (Option-cases (get_payment_network env s)) [
      | inl missing ↦ absurd (ground arith)
      | inr (m, source) ↦ elim (Option-cases (get_payment_network env d)) [
        | inl missing ↦ absurd (ground arith)
        | inr (n, destination) ↦
            let at_s = get_payment_network-chain_id env s m source in
            let at_d = get_payment_network-chain_id env d n destination in
            let agree = networks-Agree env preview s d m n source destination in
            elim (Bool-cases (m.chain_id == n.chain_id)) [
              | inl same ↦
                  let known : direct token m n ≡ r = ground arith in
                  subst (IsPlanned env s d preview token) known
                    (same_network m n at_s at_d (ground arith) (rw same at agree))
              | inr other ↦
                  let known : cctp_standard m n ≡ r = ground arith in
                  subst (IsPlanned env s d preview token) known
                    (across m n at_s at_d (ground arith) (ground arith) (rw other at agree))
            ]
      ]
    ]
