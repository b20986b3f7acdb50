-- ===== src/Onu/Omci/Base.antt =====
-- What the cases of handleOmciRequest share (internal/bbsim/devices/onu.go).
use g_simulator.Prelude.{ℕ, ◌+◌, ◌≡◌, refl, Bool, List, Option, none, some, u8}
use g_simulator.Go.{Result, ok, ◌>>=◌, Yields}
use g_simulator.Fsm.{Engine}
use g_simulator.Onu.Machine.{OnuTx}
use g_simulator.Onu.State.{World}
use g_simulator.Onu.Events.{fire_onu}

-- The errors that handleOmciRequest returns.
pub data OmciError : Type 0 where
  skipping_omci_msg_response : ℕ → OmciError
  download_section_response_failed : OmciError

-- How a case of the switch ends: with `responsePkt`, or with the return of the error of a section
-- whose response could not be made, the only error that a case returns.
pub data Handled : Type 0 where
  responds : Option (List ℕ) → Handled
  fails : Handled

-- `o.MibDataSync++`.
abbrev pub mds_incremented : World → World
mds_incremented w = record w { onu = record w.onu { mib_data_sync = u8 (w.onu.mib_data_sync + 1) } }

-- `if err := o.InternalState.Event(tx); err != nil { log }`.
unfoldable pub fire_logged : Engine → ℕ → Bool → OnuTx → World → Result World
fire_logged engine stream is_mock tx w = do (_, w') ← fire_onu engine stream is_mock tx w; ok w'

-- `if responsePkt, errResp = Create...(); errResp == nil { f }`.
abbrev pub respond_then :
    Option (List ℕ) → (World → Result World) → World → Result (Handled × World)
respond_then none f w = ok (responds none, w)
respond_then (some bytes) f w = do w' ← f w; ok (responds (some bytes), w')

-- A response with an increment of `MibDataSync` touches nothing else.
pub respond_then-pon :
    (response : Option (List ℕ)) (w : World)
    → Yields (λ r. r.1.pon ≡ w.pon) (respond_then response (λ u. ok (mds_incremented u)) w)
respond_then-pon none w = refl
respond_then-pon (some bytes) w = refl
