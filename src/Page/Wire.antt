-- ===== src/Page/Wire.antt =====
-- site/app.js: what `usbTransfer` and `sendReset` hand to the captured device.
use frogalert.Prelude.{
  ℕ, Bool, true, false, not, ◌==◌, ◌||◌, List, [], ◌∷◌, ◌++◌, map, length, Result, ok, err, some,
  if◌then◌else◌,
}
use frogalert.Prelude.Bytes.{byte_at}
use frogalert.Protocol.Packets.{isp_end_packet}
use frogalert.Protocol.Responses.{parse_response}
use frogalert.Session.{SessionError}
use frogalert.Page.{
  Tab, Write, Browser, Async, resume, ◌>>=◌, ◌>>◌, throw_if, device_changed, not_open, write_failed,
}
use frogalert.Page.Usb.{
  await_call, write_packet, opened_device, captured_or_absent, target_of, require_data, exchange,
  usb_transfer, reset_response, send_reset,
}
use frogalert.Page.Quiet.{
  Same, Same-resume, Quiet-bind, Quiet-throw_if, Quiet-await_call, Quiet-require_data,
  Quiet-checked, Quiet-reset_response,
}

abbrev pub written_to : ℕ → List (List ℕ) → List Write
written_to device packets = map (λ packet. record { device = device; packet = packet }) packets

-- The page with one packet more on the wire.
abbrev pub sending : {W : Type 0} → ℕ → List ℕ → Tab W → Tab W
sending device packet t = record t { wire = t.wire ++ written_to device (packet ∷ []) }

-- A call that returned has written the packet; one that threw may have.
pub data Wrote {W : Type 0} (device : ℕ) (packet : List ℕ) (t : Tab W) {A : Type 0}
    : Result SessionError A × Tab W → Type 0 where
  wrote :
      {r : Result SessionError A} {u : Tab W}
      → Same (sending device packet t) u
      → Wrote device packet t (r, u)
  refused : {e : SessionError} → Wrote device packet t (err e, t)

Wrote-throw_if :
    {W A : Type 0} (device : ℕ) (packet : List ℕ) (t : Tab W) (c : Bool) (e : SessionError)
    (m : Async W A)
    → Wrote device packet t (m t)
    → Wrote device packet t ((throw_if c e >> m) t)
Wrote-throw_if device packet t true e m h = refused
Wrote-throw_if device packet t false e m h = h

Wrote-opened :
    {W A : Type 0} (device : ℕ) (packet : List ℕ) (t : Tab W) (c : Bool) (f : ℕ → Async W A)
    → Wrote device packet t (f device t)
    → Wrote device packet t (resume (if c then ok device else err not_open, t) f)
Wrote-opened device packet t true f h = h
Wrote-opened device packet t false f h = refused

module _ {W : Type 0} (b : Browser W) where
  Same-write_packet :
      (device : ℕ) (packet : List ℕ) (ms : ℕ) (t : Tab W)
      → Same (sending device packet t) (write_packet b device packet ms t).1
  unfolding write_packet
  Same-write_packet device packet ms t =
      Quiet-await_call b (b.transfer_out device packet ms) (sending device packet t)

  pub Same-exchange :
      (packet : List ℕ) (device : ℕ) (t : Tab W)
      → Same (sending device packet t) (exchange b packet device t).1
  unfolding exchange
  Same-exchange packet device t =
      Same-resume (sending device packet t) (write_packet b device packet 8000 t) _
        (Same-write_packet device packet 8000 t)
        λ sent.
          Quiet-bind (throw_if (not sent.is_ok || not (sent.bytes_written == length packet)) _) _
            (Quiet-throw_if _ _)
            λ _.
              Quiet-bind (await_call b (b.transfer_in device 8000)) _ (Quiet-await_call b _)
                λ received.
                  Quiet-bind (require_data b received) _ (Quiet-require_data b received)
                    λ bytes. Quiet-checked (parse_response bytes (byte_at packet 0))

  -- `usbTransfer` in a flash session writes to the captured device or throws at once.
  pub usb_transfer-Wrote :
      (packet : List ℕ) (device : ℕ) (t : Tab W)
      → Wrote device packet t (usb_transfer b packet (some device) t)
  unfolding usb_transfer captured_or_absent target_of opened_device
  usb_transfer-Wrote packet device t =
      Wrote-throw_if device packet t _ device_changed
        (opened_device b (some device) >>= exchange b packet)
        (Wrote-opened device packet t (b.opened device t.world) (exchange b packet)
          (wrote (Same-exchange packet device t)))

  -- The command and its response.
  abbrev write_reset : ℕ → Async W Bool
  write_reset device = do
    sent ← write_packet b device (isp_end_packet 1) 3000
    throw_if (not sent.is_ok || not (sent.bytes_written == length (isp_end_packet 1))) write_failed
    reset_response b device

  Same-write_reset :
      (device : ℕ) (t : Tab W) → Same (sending device (isp_end_packet 1) t) (write_reset device t).1
  Same-write_reset device t =
      Same-resume (sending device (isp_end_packet 1) t)
        (write_packet b device (isp_end_packet 1) 3000 t) _
        (Same-write_packet device (isp_end_packet 1) 3000 t)
        λ sent.
          Quiet-bind
            (throw_if (not sent.is_ok || not (sent.bytes_written == length (isp_end_packet 1)))
              write_failed)
            _ (Quiet-throw_if _ _) λ _. Quiet-reset_response b device

  pub send_reset-Wrote :
      (device : ℕ) (t : Tab W) → Wrote device (isp_end_packet 1) t (send_reset b (some device) t)
  unfolding send_reset opened_device
  send_reset-Wrote device t =
      Wrote-throw_if device (isp_end_packet 1) t _ device_changed
        (opened_device b (some device) >>= write_reset)
        (Wrote-opened device (isp_end_packet 1) t (b.opened device t.world) write_reset
          (wrote (Same-write_reset device t)))
