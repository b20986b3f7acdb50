-- ===== src/Uni/Gems.antt =====
-- Which services of a UNI take the GEM port of a flow (internal/bbsim/devices/uni_port.go,
-- addGemPortToService).
use g_simulator.Prelude.{
  ℕ, ◌≡◌, refl, Bool, ◌&&◌, ◌||◌, List, [], ◌∷◌, ◌==◌, if◌then◌else◌, map, arith,
}
use g_simulator.Service.{Service}
use g_simulator.Uni.{
  UniPort, ethernet_type_eapol, ethernet_type_ipv4, add_gem_port, add_gem_port_to_service,
}

-- An EAPOL flow is for the services that need EAPOL, an IPv4 flow for those that need DHCP and whose
-- inner tag is the outer tag of the flow; any flow is for those that match both its tags.
abbrev pub takes_gem_port : ℕ → ℕ → ℕ → Service → Bool
takes_gem_port eth_type o_vlan i_vlan s =
    (eth_type == ethernet_type_eapol && s.needs_eapol)
    || ((eth_type == ethernet_type_ipv4 && (s.needs_dhcp && s.c_tag == o_vlan))
        || (s.c_tag == i_vlan && s.s_tag == o_vlan))

abbrev pub with_gem_port : ℕ → ℕ → ℕ → ℕ → Service → Service
with_gem_port gemport eth_type o_vlan i_vlan s =
    if takes_gem_port eth_type o_vlan i_vlan s then record s { gem_port = gemport } else s

add_gem_port_lem :
    (gemport eth_type o_vlan i_vlan : ℕ) (s : Service)
    → add_gem_port gemport eth_type o_vlan i_vlan s ≡ with_gem_port gemport eth_type o_vlan i_vlan s
unfolding add_gem_port
add_gem_port_lem gemport eth_type o_vlan i_vlan s = ground arith

map_ext :
    (f g : Service → Service) (l : List Service) → ((s : Service) → f s ≡ g s) → map f l ≡ map g l
map_ext f g [] h = refl
map_ext f g (x ∷ l) h = ground (arith, h x, map_ext f g l h)

-- A flow sets the GEM port of exactly the services that it is for, and changes nothing else of the
-- UNI, although the source tests its three conditions one after the other on what the one before left.
pub add_gem_port_to_service_lem :
    (gemport eth_type o_vlan i_vlan : ℕ) (u : UniPort)
    → add_gem_port_to_service gemport eth_type o_vlan i_vlan u
      ≡ record u { services = map (with_gem_port gemport eth_type o_vlan i_vlan) u.services }
unfolding add_gem_port_to_service
add_gem_port_to_service_lem gemport eth_type o_vlan i_vlan u = rw (
    map_ext _ (with_gem_port gemport eth_type o_vlan i_vlan) u.services
      (add_gem_port_lem gemport eth_type o_vlan i_vlan))
