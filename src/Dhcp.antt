-- ===== src/Dhcp.antt =====
-- Addresses and transaction ids of DHCP (internal/bbsim/responders/dhcp/dhcp.go and dhcp_server.go), and
-- the MAC addresses of services from which they are made (internal/bbsim/devices/uni_port.go).
pub mod Collisions
pub mod Exchange
pub mod Server
use g_simulator.Prelude.{ℕ, ◌+◌, ◌*◌, List, [], ◌∷◌, ltb, if◌then◌else◌, u8, u32}
use g_simulator.Go.{Result, ok, panics}

-- The MAC address of a service of a UNI.
unfoldable pub service_mac : ℕ → ℕ → ℕ → ℕ → ℕ → List ℕ
service_mac olt_id pon_port_id onu_id uni_id k =
    0x2e ∷ u8 olt_id ∷ u8 pon_port_id ∷ u8 onu_id ∷ u8 uni_id ∷ u8 k ∷ []

-- `str + fmt.Sprintf("%d", b)` of a byte `b`, on the number that the digits stand for.
unfoldable pub append_decimal : ℕ → ℕ → ℕ
append_decimal n b =
    if ltb b 10 then n * 10 + b else if ltb b 100 then n * 100 + b else n * 1000 + b

-- The loop of macAddressToTxId, with the number so far; the empty string counts as 0, the source's
-- `strconv.Atoi` of it fails.
unfoldable pub decimal_of : ℕ → List ℕ → ℕ
unfolding append_decimal
decimal_of n [] = n
decimal_of n (b ∷ mac) = decimal_of (append_decimal n b) mac

-- macAddressToTxId of an address that is not empty; the number fits an `int` for six bytes.
unfoldable pub mac_address_to_tx_id : List ℕ → ℕ
mac_address_to_tx_id mac = u32 (decimal_of 0 mac)

-- createIpFromMacAddress reads the bytes 2 to 5 and uses two of them; a shorter address panics.
unfoldable pub create_ip_from_mac_address : List ℕ → Result (ℕ × ℕ × ℕ × ℕ)
create_ip_from_mac_address (m0 ∷ m1 ∷ m2 ∷ m3 ∷ m4 ∷ m5 ∷ rest) =
    ok (192, 168, u8 (30 + m2), u8 (2 + m4))
create_ip_from_mac_address _ = panics
