-- ===== src/Scenarios/Creation.antt =====
-- UNIs that are created.
use Prim.Native.String.{String}
use g_simulator.Prelude.{ℕ, refl, true, false, [], ◌∷◌, Option}
use g_simulator.Prelude.Map
use g_simulator.Go.{Ensures}
use g_simulator.Uni.{UniPort}
use g_simulator.Uni.Create.{string_eq, ServiceYaml, Tags, new_uni_port}
use g_simulator.Uni.Tags.{Grows, c_tags_of, create_all, create_all-Grows}
use g_simulator.Uni.Fresh.{IsFresh, new_uni_port-IsFresh}

abbrev att_hsia : ServiceYaml
att_hsia = record {
  name = "hsia";
  c_tag = 900;
  s_tag = 900;
  needs_eapol = true;
  needs_dhcp = true;
  needs_igmp = false;
  needs_pppoe = false;
  c_tag_allocation = "unique";
  s_tag_allocation = "shared";
  technology_profile_id = 64;
  uni_tag_match = 0;
  configure_mac_address = false;
  enable_mac_learning = false;
  us_pon_c_tag_priority = 0;
  us_pon_s_tag_priority = 0;
  ds_pon_c_tag_priority = 0;
  ds_pon_s_tag_priority = 0;
}

create_all-Grows_example :
    Ensures
      (λ services. Grows (Map.lookup {K = String} {V = ℕ} "hsia" []) (c_tags_of "hsia" services))
      (create_all 0 (att_hsia ∷ []) ((0, 0, 1) ∷ (0, 0, 2) ∷ (0, 0, 3) ∷ []) [] [])
create_all-Grows_example =
    create_all-Grows 0 "hsia" (att_hsia ∷ []) (λ same. refl, tt)
      ((0, 0, 1) ∷ (0, 0, 2) ∷ (0, 0, 3) ∷ []) [] []

new_uni_port-IsFresh_example :
    Ensures
      (λ (x : Option UniPort × Tags × Tags). IsFresh 1 x.0)
      (new_uni_port 1 0 0 5 (att_hsia ∷ []) [] [])
new_uni_port-IsFresh_example = new_uni_port-IsFresh 1 0 0 5 (att_hsia ∷ []) [] []
