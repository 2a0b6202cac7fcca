-- ===== src/Networks/Tests.antt =====
-- Networks: the theorem at a concrete route.
use xdcid.Common.{refl, text}
use xdcid.Networks.{mainnet, ethereum, polygon}
use xdcid.Networks.Routing.{usdc, cctp_standard, plan_payment_route}
use xdcid.Networks.Agreement.{IsPlanned, plan_payment_route-IsPlanned}

plan_payment_route-IsPlanned_example :
    IsPlanned mainnet 1 137 (text "1:137") usdc (cctp_standard ethereum polygon)
unfolding plan_payment_route xdcid.Networks.get_payment_network
plan_payment_route-IsPlanned_example =
    plan_payment_route-IsPlanned mainnet 1 137 (text "1:137") usdc (cctp_standard ethereum polygon)
      refl
