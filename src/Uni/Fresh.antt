-- ===== src/Uni/Fresh.antt =====
-- A new UNI is well-formed (internal/bbsim/devices/uni_port.go, NewUniPort).
use g_simulator.Prelude.{
  ℕ, ◌+◌, ◌≡◌, ◌<◌, ◌≤◌, refl, List, [], ◌∷◌, Option, none, some, All, ltb, arith,
}
use g_simulator.Prelude.Map
use g_simulator.Go.{Ensures, Ensures-bind, Ensures-any, Ensures-if}
use g_simulator.Oper.{OperState}
use g_simulator.Dhcp.{service_mac}
use g_simulator.Service.{Service}
use g_simulator.Uni.{UniPort}
use g_simulator.Uni.Switching.{FitsPort, IsUniWellformed}
use g_simulator.Uni.Create.{
  string_eq, ServiceYaml, Tags, new_service, next_tag, new_services, new_uni_port,
}

new_service-FitsPort :
    (id : ℕ) (s : ServiceYaml) (mac : List ℕ) (c t : ℕ)
    → FitsPort OperState.down (new_service id s mac c t)
unfolding new_service
new_service-FitsPort id s mac c t =
    (record { channel_fits = tt; packet_ch_fits = tt }, λ e. ground arith)

new_services-FitsPort :
    (mac_of : ℕ → List ℕ) (configured : List ServiceYaml) (k : ℕ) (c_tags s_tags : Tags)
    → Ensures
        (λ (x : List Service × Tags × Tags). All (FitsPort OperState.down) x.0)
        (new_services mac_of k configured c_tags s_tags)
unfolding new_services
new_services-FitsPort mac_of [] k c_tags s_tags = tt
new_services-FitsPort mac_of (s ∷ rest) k c_tags s_tags =
    Ensures-bind (λ c. Unit {0}) _ (next_tag s.c_tag_allocation s.c_tag (Map.lookup s.name c_tags))
      _ (Ensures-any _)
      λ c _.
        Ensures-bind (λ t. Unit {0}) _
          (next_tag s.s_tag_allocation s.s_tag (Map.lookup s.name s_tags)) _ (Ensures-any _)
          λ t _.
            Ensures-bind _ _
              (new_services mac_of (k + 1) rest (Map.insert s.name c c_tags)
                (Map.insert s.name t s_tags))
              _
              (new_services-FitsPort mac_of rest (k + 1) (Map.insert s.name c c_tags)
                (Map.insert s.name t s_tags))
              λ (services, c', t') h. (new_service-FitsPort k s (mac_of k) c t, h)

-- What NewUniPort returns for this number.
abbrev pub IsFresh : ℕ → Option UniPort → Type 0
IsFresh id none = 3 < id
IsFresh id (some u) = (u.id ≡ id) × (id ≤ 3) × (u.oper_state ≡ OperState.down) × IsUniWellformed u

-- A new UNI has the number asked for, and there is one exactly if the number is at most 3; it is down and well-formed: its entity id is
-- that of its number, and its services are well-formed and not initialized. This holds of every UNI
-- whose creation does not end the program for want of tags.
pub new_uni_port-IsFresh :
    (id olt_id pon onu : ℕ) (configured : List ServiceYaml) (c_tags s_tags : Tags)
    → Ensures
        (λ (x : Option UniPort × Tags × Tags). IsFresh id x.0)
        (new_uni_port id olt_id pon onu configured c_tags s_tags)
unfolding new_uni_port
new_uni_port-IsFresh id olt_id pon onu configured c_tags s_tags =
    Ensures-if _ (ltb 3 id) _ _ (λ above. ground (arith, above))
      (λ within.
        Ensures-bind _ _
          (new_services (λ k. service_mac olt_id pon onu id k) 0 configured c_tags s_tags) _
          (new_services-FitsPort (λ k. service_mac olt_id pon onu id k) configured 0 c_tags s_tags)
          λ (services, c', t') h.
            (refl, ground (arith, within), refl, record { has_entity_id = refl; services_fit = h }))
