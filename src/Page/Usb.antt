-- ===== src/Page/Usb.antt =====
-- site/app.js: `usbTransfer`, `sendReset` and `closeUsb`.
use frogalert.Prelude.{
  ℕ, ◌==◌, Bool, true, false, not, ◌&&◌, ◌||◌, List, [], ◌∷◌, ◌++◌, length, Option, none, some,
  Result, ok, err, if◌then◌else◌,
}
use frogalert.Prelude.Bytes.{byte_at}
use frogalert.Protocol.Packets.{isp_end_packet}
use frogalert.Protocol.Responses.{parse_response}
use frogalert.Protocol.Command
use frogalert.Session.{Environment, SessionError}
use frogalert.Page.{
  Tab, Written, Received, Browser, device_changed, not_open, write_failed, read_failed, Async,
  ◌>>=◌, ◌>>◌, return, throw_if, checked, attempt,
}

-- `===` on devices, tags and `null`.
unfoldable pub same_object : Option ℕ → Option ℕ → Bool
same_object none none = true
same_object none (some e) = false
same_object (some d) none = false
same_object (some d) (some e) = d == e

unfoldable pub data_of : Bool → Option (List ℕ) → Result SessionError (List ℕ)
data_of is_ok none = err read_failed
data_of is_ok (some bytes) = if is_ok then ok bytes else err read_failed

unfoldable pub is_acknowledged : Result SessionError (List ℕ) → Bool
is_acknowledged (ok payload) = true
is_acknowledged (err e) = false

module _ {W : Type 0} (b : Browser W) where
  -- The other handlers run while the page waits.
  unfoldable pub hand_over : Tab W → Tab W
  hand_over t =
      let (shared, w) = b.other_handlers t.flashing t.button_flash_pending t.shared t.world in
      record t { shared = shared; world = w }

  -- `await` of a call of the browser.
  unfoldable pub await_call : {A : Type 0} → (W → Result SessionError A × W) → Async W A
  await_call call t = let (r, w) = call t.world in (r, hand_over (record t { world = w }))

  -- `await withTimeout(device.transferOut(USB_ENDPOINT, packet), ms, …)`
  unfoldable pub write_packet : ℕ → List ℕ → ℕ → Async W Written
  write_packet device packet ms t =
      await_call (b.transfer_out device packet ms)
        (record t { wire = t.wire ++ record { device = device; packet = packet } ∷ [] })

  -- `device?.opened`, for the device that a packet goes to.
  unfoldable pub opened_device : Option ℕ → Async W ℕ
  opened_device none t = (err not_open, t)
  opened_device (some device) t = (if b.opened device t.world then ok device else err not_open, t)

  unfoldable pub still_captured : Option ℕ → Tab W → Bool
  still_captured expected t =
      same_object t.shared.usb_device expected && same_object t.active_flash_device expected

  unfoldable pub captured_or_absent : Option ℕ → Tab W → Bool
  captured_or_absent none t = true
  captured_or_absent (some device) t = still_captured (some device) t

  -- `expectedDevice || state.usbDevice`
  unfoldable pub target_of : Option ℕ → Tab W → Option ℕ
  target_of none t = t.shared.usb_device
  target_of (some device) t = some device

  unfoldable pub require_data : Received → Async W (List ℕ)
  require_data received t = (data_of received.is_ok received.bytes, t)

  -- From the write on.
  unfoldable pub exchange : List ℕ → ℕ → Async W (List ℕ)
  exchange packet device = do
    sent ← write_packet device packet 8000
    throw_if (not sent.is_ok || not (sent.bytes_written == length packet)) write_failed
    received ← await_call (b.transfer_in device 8000)
    bytes ← require_data received
    checked (parse_response bytes (byte_at packet 0))

  unfoldable pub usb_transfer : List ℕ → Option ℕ → Async W (List ℕ)
  usb_transfer packet expected_device t =
      (do
        throw_if (not (captured_or_absent expected_device t)) device_changed
        device ← opened_device (target_of expected_device t)
        exchange packet device)
        t

  -- The response to the reset, which may be missing.
  unfoldable pub receive_reset : ℕ → Async W (List ℕ)
  receive_reset device = do
    received ← await_call (b.transfer_in device 1500)
    bytes ← require_data received
    checked (parse_response bytes Command.isp_end)

  unfoldable pub reset_response : ℕ → Async W Bool
  reset_response device = do
    outcome ← attempt (receive_reset device)
    return (is_acknowledged outcome)

  unfoldable pub send_reset : Option ℕ → Async W Bool
  send_reset expected_device t =
      (do
        throw_if (not (still_captured expected_device t)) device_changed
        device ← opened_device expected_device
        sent ← write_packet device (isp_end_packet 1) 3000
        throw_if (not sent.is_ok || not (sent.bytes_written == length (isp_end_packet 1)))
            write_failed
        reset_response device)
        t

  -- `await` in a `try` block whose `catch` does nothing.
  unfoldable pub await_quietly : (W → Result SessionError (Unit {0}) × W) → Async W (Unit {0})
  await_quietly call = do _ ← attempt (await_call call); return tt

  unfoldable pub close_device : Option ℕ → Async W (Unit {0})
  close_device none t = (ok tt, t)
  close_device (some device) t =
      if b.opened device t.world
      then (await_quietly (b.release_interface device) >> await_quietly (b.close device)) t
      else (ok tt, t)

  unfoldable pub forget_device : Tab W → Tab W
  forget_device t =
      let shared = record t.shared { usb_device = none; chip = none; config = none } in
      record t { shared = shared }

  unfoldable pub close_usb : Async W (Unit {0})
  close_usb t = close_device t.shared.usb_device (forget_device t)

  -- The callbacks that `flashFirmware` hands to the session. `onEvent` shows the progress.
  unfoldable pub session_environment : Option ℕ → Environment (Tab W)
  session_environment flash_device = record {
    transfer = λ packet. usb_transfer packet flash_device;
    reset = send_reset flash_device;
    random_byte = λ t. let (r, w) = b.random_byte t.world in (r, record t { world = w });
    wait = λ ms. await_call (b.delay ms);
    on_event = λ e t. (ok tt, t);
  }
