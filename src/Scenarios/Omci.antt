-- ===== src/Scenarios/Omci.antt =====
-- OMCI messages of an ONU.
use g_simulator.Prelude.{
  ℕ, ◌≡◌, inl, refl, Bool, true, false, List, [], ◌∷◌, Option, none, some, ◌==◌, if◌then◌else◌,
  length, arith,
}
use g_simulator.Prelude.Map.{lookup, nat_eq}
use g_simulator.Go.{Yields, Ensures}
use g_simulator.Fsm.{table_engine}
use g_simulator.Pon.{is_gem_port_allocated, is_alloc_id_allocated, alloc_key_eq}
use g_simulator.Omci.Packet.{
  EntityClass, AttributeName, AttributeValue, uint16_value, SetRequest, OmciMessage, MessageType,
  create_request, delete_request, set_request, other_body,
}
use g_simulator.Onu.State.{World}
use g_simulator.Onu.Omci.Base.{Handled}
use g_simulator.Onu.Omci.Requests.{handle_create, handle_delete, set_t_cont}
use g_simulator.Onu.Omci.GemPorts.{gem_port, Created, handle_create-Created, handle_delete_lem}
use g_simulator.Onu.Omci.AllocIds.{IsAllocated, alloc_of, set_t_cont_lem}
use g_simulator.Onu.Omci.Rounds.{serve, serve_lem}
use g_simulator.Onu.Omci.Download.{message}
use g_simulator.Scenarios.Values.{world1, plain_library, header}

-- A request for the GEM port of another ONU.
abbrev create_1025 : OmciMessage
create_1025 = message header (create_request (gem_port 1025))

handle_create-Created_example :
    Yields
      (Created plain_library create_1025 world1 1025)
      (handle_create plain_library create_1025 world1)
handle_create-Created_example = handle_create-Created plain_library create_1025 world1 1025 refl

abbrev delete_1025 : OmciMessage
delete_1025 = message header (delete_request (gem_port 1025))

handle_delete_lem_example :
    Yields
      (λ (r : Handled × World).
        (g : ℕ)
        → is_gem_port_allocated r.1.pon g
          ≡ (if 1025 == g then none else is_gem_port_allocated world1.pon g))
      (handle_delete plain_library delete_1025 world1)
handle_delete_lem_example = handle_delete_lem plain_library delete_1025 world1 1025 refl

abbrev t_cont_attributes : AttributeName → Option AttributeValue
t_cont_attributes AttributeName.alloc_id = some (uint16_value 1100)
t_cont_attributes AttributeName.managed_entity_id = some (uint16_value 32769)
t_cont_attributes AttributeName.administrative_state = none

abbrev set_1100 : SetRequest
set_1100 = record {
  base = record { entity_class = EntityClass.t_cont; entity_instance = 32769 };
  attributes = t_cont_attributes;
}

abbrev set_message : OmciMessage
set_message = message header (set_request set_1100)

unset_at_first : alloc_of world1 32769 ≡ none
unfolding is_alloc_id_allocated lookup
unset_at_first = refl

set_t_cont_lem_example :
    Yields
      (λ (x : Bool × World).
        (x.0 ≡ true) × IsAllocated plain_library set_message 32769 1100 world1 x.1)
      (set_t_cont plain_library set_message set_1100 world1)
set_t_cont_lem_example =
    set_t_cont_lem plain_library set_message 32769 1100 set_1100 world1
      (record { alloc_id = refl; entity_id = refl }) (λ e. ground arith) (λ e. ground arith)
      unset_at_first

abbrev get_message : OmciMessage
get_message = message (record header { message_type = MessageType.get }) other_body

abbrev ten_gets : List OmciMessage
ten_gets = let m = get_message in m ∷ m ∷ m ∷ m ∷ m ∷ m ∷ m ∷ m ∷ m ∷ m ∷ []

serve_lem_example :
    Ensures
      (λ (r : ℕ × World). (r.0 ≡ 9) × (length ten_gets ≡ 10 → r.1.onu.omci_msg_counter ≡ 10))
      (serve table_engine 7 true plain_library false ten_gets world1)
serve_lem_example =
    serve_lem table_engine 7 true plain_library false ten_gets world1 (inl refl) (omega arith)
