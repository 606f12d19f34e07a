-- ===== src/Page/Traffic.antt =====
-- site/app.js with site/flash-session.js: what a session of the page puts on the wire.
use frogalert.Prelude.{
  ℕ, ◌≡◌, refl, sym, ◌∙◌, ap, List, [], ◌∷◌, ◌++◌, Result, ok, err, append-nil, append_assoc,
  map-append, some, Bool,
}
use frogalert.Protocol.Packets.{isp_end_packet}
use frogalert.Session.{State, SessionError}
use frogalert.Session.Steps.{transfer, emit, random_byte, wait, reset, program_and_verify_firmware}
use frogalert.Session.Runs.{After, Respects, Runs-program_and_verify_firmware}
use frogalert.Page.{Tab, Write, Browser, Bool}
use frogalert.Page.Usb.{usb_transfer, send_reset, await_call, hand_over, session_environment}
use frogalert.Page.Quiet.{SameOwn, SameOwn-trans}
use frogalert.Page.Wire.{written_to, Wrote, wrote, refused, usb_transfer-Wrote, send_reset-Wrote}

module _ {W : Type 0} (b : Browser W) (device : ℕ) (t : Tab W) where
  -- The wire holds what it held before the session, and these packets to the device.
  abbrev pub OnWire : List (List ℕ) → Tab W → Type 0
  OnWire packets u = (u.wire ≡ t.wire ++ written_to device packets) × SameOwn t u

  -- All that was handed to `transfer`.
  abbrev pub Running : State (Tab W) → Type 0
  Running s = OnWire s.sent s.world

  -- And the reset command.
  abbrev pub Ended : State (Tab W) → Type 0
  Ended s = OnWire (s.sent ++ isp_end_packet 1 ∷ []) s.world

  -- Or a first part of what was handed over.
  pub data Stopped (s : State (Tab W)) : Type 0 where
    part : (first rest : List (List ℕ)) → s.sent ≡ first ++ rest → OnWire first s.world → Stopped s
    whole : Ended s → Stopped s

  -- One packet more.
  OnWire-sending :
      (packets : List (List ℕ)) (packet : List ℕ) (u v : Tab W)
      → OnWire packets u
      → (v.wire ≡ u.wire ++ written_to device (packet ∷ [])) × SameOwn u v
      → OnWire (packets ++ packet ∷ []) v
  OnWire-sending packets packet u v (e, own) (e', own') =
      let written : List Write = written_to device (packet ∷ []) in
      (
        e'
            ∙ ap (λ l. l ++ written) e
            ∙ append_assoc t.wire (written_to device packets) written
            ∙ ap (λ l. t.wire ++ l)
                (sym
                  (map-append (λ p. record { device = device; packet = p }) packets (packet ∷ []))),
        SameOwn-trans t u v own own',
      )

  Running-Stopped : (s : State (Tab W)) → Running s → Stopped s
  Running-Stopped s h = part s.sent [] (sym (append-nil s.sent)) h

  -- A call of `transfer`, by what it wrote.
  After-transfer :
      (packet : List ℕ) (s : State (Tab W)) (x : Result SessionError (List ℕ) × Tab W)
      → Running s
      → Wrote device packet s.world x
      → After Running Stopped
          (x.0, record { world = x.1; sent = s.sent ++ packet ∷ []; events = s.events })
  After-transfer packet s (ok response, u) h (wrote k) = OnWire-sending s.sent packet s.world u h k
  After-transfer packet s (err e, u) h (wrote k) =
      Running-Stopped (record { world = u; sent = s.sent ++ packet ∷ []; events = s.events })
        (OnWire-sending s.sent packet s.world u h k)
  After-transfer packet s (err e, u) h refused = part s.sent (packet ∷ []) refl h

  After-reset :
      (s : State (Tab W)) (x : Result SessionError Bool × Tab W)
      → Running s
      → Wrote device (isp_end_packet 1) s.world x
      → After Ended Stopped (x.0, record s { world = x.1 })
  After-reset s (ok response, u) h (wrote k) =
      OnWire-sending s.sent (isp_end_packet 1) s.world u h k
  After-reset s (err e, u) h (wrote k) =
      whole (OnWire-sending s.sent (isp_end_packet 1) s.world u h k)
  After-reset s (err e, u) h refused = Running-Stopped s h

  -- A call that leaves the wire alone, whether it throws or not.
  After-other :
      {A : Type 0} (s : State (Tab W)) (r : Result SessionError A)
      → Running s
      → After Running Stopped (r, s)
  After-other s (ok a) h = h
  After-other s (err e) h = Running-Stopped s h

  session_environment-Respects :
      Respects (session_environment b (some device)) Running Ended Stopped
  unfolding session_environment transfer emit random_byte wait reset await_call hand_over
  session_environment-Respects = record {
    transfers = λ packet s h.
        After-transfer packet s (usb_transfer b packet (some device) s.world) h
          (usb_transfer-Wrote b packet device s.world);
    emits = λ e s h. h;
    randoms = λ s h. After-other _ (b.random_byte s.world.world).0 h;
    waits = λ ms s h. After-other _ (b.delay ms s.world.world).0 h;
    resets = λ s h.
        After-reset s (send_reset b (some device) s.world) h (send_reset-Wrote b device s.world);
    ends = λ e s h. h;
    stops = Running-Stopped;
  }

  -- From a session that starts with this page.
  pub session-OnWire :
      (padded : List ℕ) (erase_sectors : ℕ) (uid : List ℕ)
      → After Ended Stopped (
          program_and_verify_firmware
            (session_environment b (some device))
            padded
            erase_sectors
            uid
            (record { world = t; sent = []; events = [] }))
  session-OnWire padded erase_sectors uid =
      Runs-program_and_verify_firmware (session_environment b (some device)) Running Ended Stopped
        session_environment-Respects padded erase_sectors uid
        (record { world = t; sent = []; events = [] }) (sym (append-nil t.wire), (refl, refl, refl))
