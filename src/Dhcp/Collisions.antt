-- ===== src/Dhcp/Collisions.antt =====
-- Clients that share an address or a transaction id (internal/bbsim/responders/dhcp).
use g_simulator.Prelude.{ℕ, ◌+◌, ◌*◌, ◌≤◌, ◌<◌, ◌≡◌, refl, List, [], ◌∷◌, ◌++◌, arith}
use g_simulator.Dhcp.{
  service_mac, append_decimal, decimal_of, mac_address_to_tx_id, create_ip_from_mac_address,
}

-- The server gives the same address to the services of all ONUs of a PON port that have the same UNI
-- number, whatever their ONU id, OLT id and number in the UNI: the address is that of the PON port and
-- the UNI alone.
pub create_ip_from_mac_address-service_mac :
    (olt onu k olt' onu' k' pon uni : ℕ)
    → create_ip_from_mac_address (service_mac olt pon onu uni k)
      ≡ create_ip_from_mac_address (service_mac olt' pon onu' uni k')
unfolding create_ip_from_mac_address service_mac
create_ip_from_mac_address-service_mac olt onu k olt' onu' k' pon uni = refl

decimal_of-append : (p q : List ℕ) (n : ℕ) → decimal_of n (p ++ q) ≡ decimal_of (decimal_of n p) q
unfolding decimal_of
decimal_of-append [] q n = refl
decimal_of-append (b ∷ p) q n = decimal_of-append p q (append_decimal n b)

shifted :
    (n a b c : ℕ)
    → 1 ≤ a
    → a < 10
    → 1 ≤ b
    → b < 10
    → c < 10
    → append_decimal (append_decimal n a) (10 * b + c)
      ≡ append_decimal (append_decimal n (10 * a + b)) c
unfolding append_decimal
shifted n a b c a1 a2 b1 b2 c2 = ground arith

-- Transaction ids are not unique: two addresses that differ by where a digit belongs, `a` and `bc` in
-- the one and `ab` and `c` in the other (the ONU 12 of the PON port 1, and the ONU 2 of the PON port 11),
-- and agree elsewhere, have the same transaction id.
pub mac_address_to_tx_id-shifted :
    (p q : List ℕ) (a b c : ℕ)
    → 1 ≤ a
    → a < 10
    → 1 ≤ b
    → b < 10
    → c < 10
    → mac_address_to_tx_id (p ++ a ∷ (10 * b + c) ∷ q)
      ≡ mac_address_to_tx_id (p ++ (10 * a + b) ∷ c ∷ q)
unfolding mac_address_to_tx_id decimal_of
mac_address_to_tx_id-shifted p q a b c a1 a2 b1 b2 c2 = ground (
  arith,
  decimal_of-append p (a ∷ (10 * b + c) ∷ q) 0,
  decimal_of-append p ((10 * a + b) ∷ c ∷ q) 0,
  shifted (decimal_of 0 p) a b c,
)

append_decimal-bounded : (n b m : ℕ) → b < 256 → n < m → append_decimal n b < 1000 * m
unfolding append_decimal
append_decimal-bounded n b m h k = ground arith

-- The decimal of a MAC address of six bytes is below 10 ^ 18 and so fits a signed 64-bit integer: the
-- source's conversion of it never fails.
pub decimal_of-bounded :
    (a b c d e f : ℕ)
    → a < 256
    → b < 256
    → c < 256
    → d < 256
    → e < 256
    → f < 256
    → decimal_of 0 (a ∷ b ∷ c ∷ d ∷ e ∷ f ∷ []) < 1000000000000000000
unfolding decimal_of
decimal_of-bounded a b c d e f ha hb hc hd he hf =
    let n1 = append_decimal-bounded 0 a 1 ha (omega arith) in
    let n2 = append_decimal-bounded _ b 1000 hb n1 in
    let n3 = append_decimal-bounded _ c 1000000 hc n2 in
    let n4 = append_decimal-bounded _ d 1000000000 hd n3 in
    let n5 = append_decimal-bounded _ e 1000000000000 he n4 in
    append_decimal-bounded _ f 1000000000000000 hf n5
