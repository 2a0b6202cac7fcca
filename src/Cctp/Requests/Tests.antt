-- ===== src/Cctp/Requests/Tests.antt =====
-- Forwarding burns: the theorem at a concrete transfer.
use xdcid.Common.{ℕ, refl, Text, text, List, map, ◌++◌, ◌+◌, ◌-◌, ◌*◌, pos, leb}
use xdcid.Common.Samples.{sample_platform, address_of, zeros}
use xdcid.Networks.{mainnet, ethereum, polygon}
use xdcid.Cctp.{FeeRates}
use xdcid.Cctp.Requests.{units, forwarded_plan}
use xdcid.Cctp.Requests.Burns.{IsForwarded, prepare-IsForwarded}

abbrev hundredth_rates : FeeRates
hundredth_rates = record { Rate = ℕ; is_rate = λ r. leb r 10_000; hundredths = λ r. r * 100 }

abbrev topic_of : ℕ → Text
topic_of c = text "0x" ++ (zeros 24 ++ map (λ d. d - b'0' + c) (zeros 40))

prepare-IsForwarded_example : IsForwarded mainnet 1 137 (
    forwarded_plan sample_platform mainnet ethereum polygon
      (address_of b'a')
      (topic_of b'a')
      2_000_000
      300_000
      200)
unfolding xdcid.Cctp.Requests.prepare_mainnet_cctp_forwarded_burn xdcid.Cctp.require_network
    xdcid.Networks.get_payment_network xdcid.Cctp.validate_amount xdcid.Cctp.require_address
    xdcid.Common.text_eq xdcid.Cctp.calculate_cctp_protocol_fee xdcid.Cctp.address_to_bytes32
prepare-IsForwarded_example =
    prepare-IsForwarded sample_platform mainnet hundredth_rates 1 137 (units (pos 2_000_000))
      (address_of b'a') (pos 300_000) 1
      (forwarded_plan sample_platform mainnet ethereum polygon (address_of b'a') (topic_of b'a')
        2_000_000 300_000 200)
      refl
