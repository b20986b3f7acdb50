-- ===== src/Scenarios/Ports.antt =====
-- Ports that are switched, and the GEM ports of their services.
use g_simulator.Prelude.{◌*◌, ◌≤◌, ◌<◌, ◌≡◌, refl, true, false, [], ◌∷◌, none, some, arith}
use g_simulator.Go.{buffered, Yields}
use g_simulator.Fsm.{table_engine, invalid_event}
use g_simulator.Oper.{OperState}
use g_simulator.Omci.EntityId.{generate_uni_port_entity_id}
use g_simulator.Omci.Packet.{StartSoftwareDownloadRequest, EntityClass}
use g_simulator.Omci.Sections.{sections_count, sections_count-is_least}
use g_simulator.Uni.{alarm_of, disable_uni, enable_uni, add_gem_port_to_service}
use g_simulator.Uni.Gems.{add_gem_port_to_service_lem}
use g_simulator.Uni.Switching.{IsUniWellformed, Switched, disable_uni-Switched, enable_uni-Switched}
use g_simulator.Scenarios.Values.{hsia, hsia-IsWellformed, uni0, pots0, owner1}

entity0 : (1 ∷ 1 ∷ []) ≡ generate_uni_port_entity_id 1
unfolding generate_uni_port_entity_id
entity0 = refl

pub uni0-IsUniWellformed : IsUniWellformed uni0
uni0-IsUniWellformed = record {
  has_entity_id = entity0;
  services_fit = ((hsia-IsWellformed, refl), tt);
}

pub pots0-IsPotsWellformed : pots0.me_id ≡ generate_uni_port_entity_id 1
pots0-IsPotsWellformed = entity0

disable_uni-Switched_example :
    Yields
      (Switched none 2048 (alarm_of owner1 257 1 true ∷ []) uni0 OperState.down)
      (disable_uni table_engine owner1 (buffered 2048 []) uni0)
disable_uni-Switched_example =
    disable_uni-Switched table_engine owner1 2048 [] (omega arith) uni0 uni0-IsUniWellformed

enable_uni-Switched_example :
    Yields
      (Switched (some invalid_event) 2048 [] uni0 OperState.up)
      (enable_uni table_engine owner1 (buffered 2048 []) uni0)
enable_uni-Switched_example =
    enable_uni-Switched table_engine owner1 2048 [] (omega arith) uni0 uni0-IsUniWellformed

add_gem_port_to_service_lem_example :
    add_gem_port_to_service 1024 0x888e 4091 900 uni0
    ≡ record uni0 { services = record hsia { gem_port = 1024 } ∷ [] }
add_gem_port_to_service_lem_example = add_gem_port_to_service_lem 1024 0x888e 4091 900 uni0

abbrev forty_bytes : StartSoftwareDownloadRequest
forty_bytes = record {
  base = record { entity_class = EntityClass.other_class 7; entity_instance = 1 };
  extended = false;
  window_size = 31;
  image_size = 40;
}

sections_count-is_least_example :
    (40 ≤ sections_count forty_bytes * 31) × (sections_count forty_bytes * 31 < 71)
sections_count-is_least_example = sections_count-is_least forty_bytes (omega arith)
