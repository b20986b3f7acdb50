-- ===== src/Onu/Omci/Rounds.antt =====
-- Of the OMCI messages of a round of ten, an ONU handles as many as its response rate says
-- (internal/bbsim/devices/onu.go, handleOmciRequest).
use g_simulator.Prelude.{
  ℕ, suc, ◌+◌, ◌≤◌, ◌≡◌, ◌⊎◌, refl, Bool, true, false, List, [], ◌∷◌, Option, some, ltb,
  if◌then◌else◌, length, arith,
}
use g_simulator.Go.{Result, ok, ◌>>=◌, Ensures, Ensures-bind, Ensures-map, StaysClosed}
use g_simulator.Fsm.{Engine}
use g_simulator.Omci.Packet.{OmciMessage}
use g_simulator.Omci.Responses.{Library}
use g_simulator.Onu.State.{World}
use g_simulator.Onu.Omci.Base.{Handled, OmciError, skipping_omci_msg_response}
use g_simulator.Onu.Omci.{
  counted, dispatch, conclude, send_omci_indication, publish_omci_event, handle_omci_request,
}
use g_simulator.Onu.Omci.Steady.{Steady, Steady-refl}
use g_simulator.Onu.Omci.EndsSteady.{dispatch-EndsSteady}

-- The message was not handled because of the response rate.
abbrev pub is_skipped : Option OmciError → Bool
is_skipped (some (skipping_omci_msg_response _)) = true
is_skipped _ = false

abbrev pub smaller : ℕ → ℕ → ℕ
smaller a b = if ltb a b then a else b

abbrev next_counter : ℕ → ℕ
next_counter c = if ltb c 10 then c + 1 else 1

-- After a message: was it skipped, and what are the counter and the rate?
abbrev Counts : World → Option OmciError × World → Type 0
Counts w (err, v) =
    (is_skipped err ≡ ltb w.onu.omci_response_rate (next_counter w.onu.omci_msg_counter))
    × (v.onu.omci_msg_counter ≡ next_counter w.onu.omci_msg_counter)
    × (v.onu.omci_response_rate ≡ w.onu.omci_response_rate)

module _ (engine : Engine) (stream : ℕ) (is_mock : Bool) (lib : Library)
    (publish_events : Bool) where
  -- The messages one after the other; the number is that of those not skipped.
  abbrev pub serve : List OmciMessage → World → Result (ℕ × World)
  serve [] w = ok (0, w)
  serve (m ∷ rest) w = do
    (err, v) ← handle_omci_request lib m engine stream is_mock publish_events w
    (n, u) ← serve rest v
    ok (if is_skipped err then n else suc n, u)

  conclude-not_skipped :
      (m : OmciMessage) (h : Handled) (w v : World)
      → Steady w v
      → (is_skipped (conclude lib m engine stream is_mock publish_events h v).0 ≡ false)
        × Steady w (conclude lib m engine stream is_mock publish_events h v).1
  unfolding conclude send_omci_indication publish_omci_event
  conclude-not_skipped m h w v k = ground (arith, k)

  dispatched :
      (m : OmciMessage) (w : World)
      → Ensures
          (λ (r : Option OmciError × World). (is_skipped r.0 ≡ false) × Steady w r.1)
          (do
            (handled, v) ← dispatch lib m engine stream is_mock m.omci_msg.message_type w
            ok (conclude lib m engine stream is_mock publish_events handled v))
  dispatched m w =
      Ensures-bind (λ (r : Handled × World). Steady w r.1) _
        (dispatch lib m engine stream is_mock m.omci_msg.message_type w) _
        (dispatch-EndsSteady engine stream is_mock lib m m.omci_msg.message_type w)
        λ (h, v) k. conclude-not_skipped m h w v k

  counts_if :
      (skip : Bool) (m : OmciMessage) (w : World)
      → Ensures
          (λ (r : Option OmciError × World). (is_skipped r.0 ≡ skip) × Steady w r.1)
          (if skip then ok (some (skipping_omci_msg_response w.onu.omci_response_rate), w) else (do
            (handled, v) ← dispatch lib m engine stream is_mock m.omci_msg.message_type w
            ok (conclude lib m engine stream is_mock publish_events handled v)))
  counts_if true m w = (refl, Steady-refl w)
  counts_if false m w = dispatched m w

  request-Counts :
      (m : OmciMessage) (w : World)
      → Ensures (Counts w) (handle_omci_request lib m engine stream is_mock publish_events w)
  unfolding handle_omci_request counted
  request-Counts m w =
      Ensures-map _ (Counts w) (handle_omci_request lib m engine stream is_mock publish_events w)
        (λ (err, v) k. (k.0, k.1.0, k.1.1))
        (counts_if (ltb w.onu.omci_response_rate (next_counter w.onu.omci_msg_counter)) m
          (record w { onu = counted w.onu }))

  pub request-StaysClosed :
      (m : OmciMessage) (w : World)
      → Ensures
          (λ (r : Option OmciError × World). StaysClosed w.onu.channel r.1.onu.channel)
          (handle_omci_request lib m engine stream is_mock publish_events w)
  unfolding handle_omci_request counted
  request-StaysClosed m w =
      Ensures-map _ _ (handle_omci_request lib m engine stream is_mock publish_events w)
        (λ (err, v) k. k.1.2)
        (counts_if (ltb w.onu.omci_response_rate (next_counter w.onu.omci_msg_counter)) m
          (record w { onu = counted w.onu }))

  -- Within a round the counter only grows.
  round_lem :
      (ms : List OmciMessage) (w : World)
      → w.onu.omci_msg_counter + length ms ≤ 10
      → Ensures
          (λ (r : ℕ × World).
            (r.0 + smaller w.onu.omci_msg_counter w.onu.omci_response_rate
              ≡ smaller (w.onu.omci_msg_counter + length ms) w.onu.omci_response_rate)
            × (r.1.onu.omci_msg_counter ≡ w.onu.omci_msg_counter + length ms))
          (serve ms w)
  round_lem [] w h = ground arith
  round_lem (m ∷ ms) w h =
      Ensures-bind (Counts w) _ (handle_omci_request lib m engine stream is_mock publish_events w) _
        (request-Counts m w)
        λ (err, v) k.
          Ensures-bind _ _ (serve ms v) _ (round_lem ms v (ground (arith, k)))
            λ (n, u) l. (ground (arith, k, l), ground (arith, k, l))

  -- At the start of a round (of a new ONU, or after a complete round of ten messages), of up to ten
  -- messages one after the other, none of which blocks or panics, exactly as many are not skipped as the
  -- response rate says, or all if they are fewer; after ten messages a new round starts.
  pub serve_lem :
      (ms : List OmciMessage) (w : World)
      → (w.onu.omci_msg_counter ≡ 0) ⊎ (w.onu.omci_msg_counter ≡ 10)
      → length ms ≤ 10
      → Ensures
          (λ (r : ℕ × World).
            (r.0 ≡ smaller (length ms) w.onu.omci_response_rate)
            × (length ms ≡ 10 → r.1.onu.omci_msg_counter ≡ 10))
          (serve ms w)
  serve_lem [] w h b = ground arith
  serve_lem (m ∷ ms) w h b =
      Ensures-bind (Counts w) _ (handle_omci_request lib m engine stream is_mock publish_events w) _
        (request-Counts m w)
        λ (err, v) k.
          Ensures-bind _ _ (serve ms v) _ (round_lem ms v (ground (arith, k)))
            λ (n, u) l. (ground (arith, k, l), λ e. ground (arith, k, l))
