-- ===== src/Onu/Omci/GemPorts.antt =====
-- GEM ports under OMCI Create and Delete (internal/bbsim/devices/onu.go, handleOmciRequest).
use g_simulator.Prelude.{
  ℕ, ◌≡◌, ◌≢◌, inl, inr, refl, true, false, Bool-cases, none, some, ◌==◌, if◌then◌else◌, arith,
}
use g_simulator.Go.{Yields, Yields-map}
use g_simulator.Messages.{Sn}
use g_simulator.Pon.{is_gem_port_allocated}
use g_simulator.Pon.Ownership.{gem-store_gem_port, gem-remove_gem_port}
use g_simulator.Omci.Packet.{
  EntityClass, Results, MeBase, create_request, delete_request, OmciMessage,
}
use g_simulator.Omci.Responses.{Library, create_create_response}
use g_simulator.Onu.State.{World}
use g_simulator.Onu.Omci.Base.{Handled, responds, respond_then-pon}
use g_simulator.Onu.Omci.Requests.{claim_gem_port, handle_create, free_gem_port, handle_delete}

-- A request for the GEM port `gem`.
abbrev pub gem_port : ℕ → MeBase
gem_port gem = record { entity_class = EntityClass.gem_port_network_ctp; entity_instance = gem }

module _ (lib : Library) (msg : OmciMessage) (w : World) where
  -- What a Create leaves of the ONU's world.
  pub record Created (gem : ℕ) (r : Handled × World) : Type 0 where
    -- No GEM port of any ONU is taken over or lost.
    pub kept :
        (g : ℕ) (sn : Sn)
        → is_gem_port_allocated w.pon g ≡ some sn
        → is_gem_port_allocated r.1.pon g ≡ some sn
    -- Only the GEM port asked for can become taken.
    pub others : (g : ℕ) → g ≢ gem → is_gem_port_allocated r.1.pon g ≡ is_gem_port_allocated w.pon g
    -- A free one becomes the ONU's.
    pub claimed :
        gem ≢ 4069
        → is_gem_port_allocated w.pon gem ≡ none
        → is_gem_port_allocated r.1.pon gem ≡ some w.onu.serial_number
    -- The multicast GEM port is not recorded.
    pub multicast : gem ≡ 4069 → is_gem_port_allocated r.1.pon gem ≡ is_gem_port_allocated w.pon gem
    -- A taken one is answered by a processing error, and the MIB data sync stays.
    pub failure :
        (sn : Sn)
        → gem ≢ 4069
        → is_gem_port_allocated w.pon gem ≡ some sn
        → (r.0
            ≡ responds
                (create_create_response lib msg.omci_pkt msg.omci_msg Results.processing_error))
          × (r.1.onu.mib_data_sync ≡ w.onu.mib_data_sync)

  claim-free :
      (gem : ℕ)
      → msg.omci_pkt ≡ create_request (gem_port gem)
      → (used : (claim_gem_port lib msg w).0 ≡ false) → (r : Handled × World)
      → r.1.pon ≡ (claim_gem_port lib msg w).1.pon
      → Created gem r
  unfolding claim_gem_port
  claim-free gem h used r e = record {
    kept = λ g sn t. ground (arith, gem-store_gem_port w.pon gem w.onu.serial_number g);
    others = λ g ne. ground (arith, gem-store_gem_port w.pon gem w.onu.serial_number g);
    claimed = λ ne f. ground (arith, gem-store_gem_port w.pon gem w.onu.serial_number gem);
    multicast = λ m. ground arith;
    failure = λ sn ne t. absurd (ground arith);
  }

  claim-used :
      (gem : ℕ)
      → msg.omci_pkt ≡ create_request (gem_port gem)
      → (used : (claim_gem_port lib msg w).0 ≡ true) → (claim_gem_port lib msg w).1 ≡ w
  unfolding claim_gem_port
  claim-used gem h used = ground arith

  claim-taken :
      (gem : ℕ)
      → msg.omci_pkt ≡ create_request (gem_port gem)
      → (used : (claim_gem_port lib msg w).0 ≡ true)
      → (is_gem_port_allocated w.pon gem ≢ none) × (gem ≢ 4069)
  unfolding claim_gem_port
  claim-taken gem h used = (λ e. ground arith, λ e. ground arith)

  -- The handling of a Create of a GEM port ends. It takes no GEM port over and loses none; the GEM port asked for
  -- becomes the ONU's if it is free and is not 4069, which is never recorded; a taken one is answered
  -- by a processing error with the MIB data sync unchanged.
  pub handle_create-Created :
      (gem : ℕ)
      → msg.omci_pkt ≡ create_request (gem_port gem)
      → Yields (Created gem) (handle_create lib msg w)
  unfolding handle_create
  handle_create-Created gem h = elim (Bool-cases (claim_gem_port lib msg w).0) [
    | inl used ↦ rw used (
        rw (claim-used gem h used) (record {
          kept = λ g sn t. t;
          others = λ g ne. refl;
          claimed = λ ne f. absurd ((claim-taken gem h used).0 f);
          multicast = λ m. refl;
          failure = λ sn ne t. (refl, refl);
        }))
    | inr free ↦ rw free (
        Yields-map (λ r. r.1.pon ≡ (claim_gem_port lib msg w).1.pon) (Created gem) _
          (claim-free gem h free) (respond_then-pon _ (claim_gem_port lib msg w).1))
  ]

  -- The handling of a Delete of a GEM port ends, and the GEM port is free again whichever ONU it belongs to; all
  -- other GEM ports are as before.
  pub handle_delete_lem :
      (gem : ℕ)
      → msg.omci_pkt ≡ delete_request (gem_port gem)
      → Yields
          (λ r.
            (g : ℕ)
            → is_gem_port_allocated r.1.pon g
              ≡ (if gem == g then none else is_gem_port_allocated w.pon g))
          (handle_delete lib msg w)
  unfolding handle_delete free_gem_port
  handle_delete_lem gem h =
      Yields-map (λ (r : Handled × World). r.1.pon ≡ (free_gem_port lib msg w).pon) _
        (handle_delete lib msg w) (λ r e g. ground (arith, e, gem-remove_gem_port w.pon gem g))
        (respond_then-pon _ (free_gem_port lib msg w))
