-- ===== src/Uni/Create.antt =====
-- The creation of UNIs with their services (internal/bbsim/devices/uni_port.go, NewUniPort;
-- services.go, NewService; the entries of common.Services, internal/common/options.go). The maps of the
-- next tags are shared by all UNIs of an OLT. `log.Fatal` ends the program, here as a panic.
use Prim.Native.String.{String}
use text.Mathlib.Text.{◌==◌ as str_eq}
use text.Mathlib.TextEquality.{eq_iff}
use g_simulator.Prelude.{◌-◌, ℕ, ◌+◌, Bool, List, [], ◌∷◌, Option, none, some, ltb, if◌then◌else◌}
use g_simulator.Prelude.Map
use g_simulator.Prelude.Map.{Eq}
use g_simulator.Go.{Result, ok, panics, ◌>>=◌, unmade, buffered}
use g_simulator.Oper.{OperState}
use g_simulator.Omci.EntityId.{generate_uni_port_entity_id}
use g_simulator.Dhcp.{service_mac}
use g_simulator.Service.Machines.Internal.{ServiceState}
use g_simulator.Service.Machines.Eapol.{EapolState}
use g_simulator.Service.Machines.Dhcp.{DhcpState}
use g_simulator.Service.Machines.Igmp.{IgmpState}
use g_simulator.Service.{Service}
use g_simulator.Uni.{UniPort}

instance abbrev pub string_eq : Eq String
string_eq = record { beq = str_eq; beq_iff = eq_iff }

-- ServiceYaml; the numbers are not negative.
pub record ServiceYaml : Type 0 where
  pub name : String
  pub c_tag : ℕ
  pub s_tag : ℕ
  pub needs_eapol : Bool
  pub needs_dhcp : Bool
  pub needs_igmp : Bool
  pub needs_pppoe : Bool
  pub c_tag_allocation : String
  pub s_tag_allocation : String
  pub technology_profile_id : ℕ
  pub uni_tag_match : ℕ
  pub configure_mac_address : Bool
  pub enable_mac_learning : Bool
  pub us_pon_c_tag_priority : ℕ
  pub us_pon_s_tag_priority : ℕ
  pub ds_pon_c_tag_priority : ℕ
  pub ds_pon_s_tag_priority : ℕ

-- NewService: what its arguments become, the machines in their first states.
unfoldable pub new_service : ℕ → ServiceYaml → List ℕ → ℕ → ℕ → Service
new_service id s mac c_tag s_tag = record {
  id = id;
  name = s.name;
  hw_address = mac;
  c_tag = c_tag;
  s_tag = s_tag;
  needs_eapol = s.needs_eapol;
  needs_dhcp = s.needs_dhcp;
  needs_igmp = s.needs_igmp;
  needs_pppoe = s.needs_pppoe;
  technology_profile_id = s.technology_profile_id;
  uni_tag_match = s.uni_tag_match;
  configure_mac_address = s.configure_mac_address;
  enable_mac_learning = s.enable_mac_learning;
  us_pon_c_tag_priority = s.us_pon_c_tag_priority;
  us_pon_s_tag_priority = s.us_pon_s_tag_priority;
  ds_pon_c_tag_priority = s.ds_pon_c_tag_priority;
  ds_pon_s_tag_priority = s.ds_pon_s_tag_priority;
  gem_port = 0;
  internal_state = ServiceState.created;
  eapol_state = EapolState.created;
  dhcp_state = DhcpState.created;
  igmp_state = IgmpState.created;
  channel = unmade;
  packet_ch = unmade;
  stream = none;
}

-- `nextCtag` and `nextStag`.
abbrev pub Tags : Type 0
Tags = List (String × ℕ)

-- The tag of a service of a new UNI, from the tag of the service before: the configured one, then the
-- next one or the same.
unfoldable pub next_tag : String → ℕ → Option ℕ → Result ℕ
next_tag allocation configured none = ok configured
next_tag allocation configured (some t) =
    if str_eq allocation "unique" then if ltb 4096 (t + 1) then panics else ok (t + 1) else ok t

-- The loop over the services, from the `k`-th.
unfoldable pub new_services :
    (ℕ → List ℕ) → ℕ → List ServiceYaml → Tags → Tags → Result (List Service × Tags × Tags)
new_services mac_of k [] c_tags s_tags = ok ([], c_tags, s_tags)
new_services mac_of k (s ∷ rest) c_tags s_tags = do
  c ← next_tag s.c_tag_allocation s.c_tag (Map.lookup s.name c_tags)
  t ← next_tag s.s_tag_allocation s.s_tag (Map.lookup s.name s_tags)
  (services, c_tags', s_tags') ←
      new_services mac_of (k + 1) rest (Map.insert s.name c c_tags) (Map.insert s.name t s_tags)
  ok (new_service k s (mac_of k) c t ∷ services, c_tags', s_tags')

-- `maxUniPorts`.
abbrev pub max_uni_ports : ℕ
max_uni_ports = 4

-- NewUniPort: `none` is the error returned.
unfoldable pub new_uni_port :
    ℕ → ℕ → ℕ → ℕ → List ServiceYaml → Tags → Tags → Result (Option UniPort × Tags × Tags)
new_uni_port id olt_id pon_port_id onu_id configured c_tags s_tags =
    if ltb (max_uni_ports - 1) id then ok (none, c_tags, s_tags) else (do
      (services, c_tags', s_tags') ←
          new_services (λ k. service_mac olt_id pon_port_id onu_id id k) 0 configured c_tags s_tags
      ok (
        some (record {
          id = id;
          me_id = generate_uni_port_entity_id (id + 1);
          port_no = 0;
          oper_state = OperState.down;
          services = services;
          packet_ch = buffered 0 [];
        }),
        c_tags',
        s_tags',
      ))
