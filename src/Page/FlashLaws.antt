-- ===== src/Page/FlashLaws.antt =====
-- site/app.js: what `flashFirmware` and `startFlash` do to the wire and to the lock fields.
use frogalert.Prelude.{
  ℕ, ◌≡◌, refl, sym, ◌∙◌, ap, List, [], ◌∷◌, ◌++◌, Result, ok, err, some, append-nil, append_assoc,
  map-append, length, subst,
}
use frogalert.Protocol.{Fault}
use frogalert.Protocol.Image.{ceil_div}
use frogalert.Protocol.Packets.{isp_end_packet}
use frogalert.Protocol.Responses.{derive_xor_key}
use frogalert.Session.{State, SessionError}
use frogalert.Session.Sends.{Follows, finished, stopped, cleared}
use frogalert.Session.Script.{script}
use frogalert.Session.Script.Whole.{Sends-program_and_verify_firmware}
use frogalert.Session.Steps.{Done, program_and_verify_firmware}
use frogalert.Session.Runs.{After}
use frogalert.Session.Silent.{program_and_verify_firmware-Unchanged}
use frogalert.Page.{Tab, Browser, Fault}
use frogalert.Page.Usb.{session_environment}
use frogalert.Page.Traffic.{Ended, Stopped, OnWire, part, whole, session-OnWire}

-- The packets of a flash session of an image with a bootloader of a given UID: none, or a first part
-- of the script with the key of this UID, or that and the reset command.
pub data IsTraffic (uid image : List ℕ) (erase_sectors : ℕ) : List (List ℕ) → Type 0 where
  nothing : IsTraffic uid image erase_sectors []
  without_reset :
      (key : List ℕ) (packets rest : List (List ℕ))
      → derive_xor_key uid 0x82 ≡ ok key
      → script image erase_sectors key (ceil_div (length image) 56) ≡ cleared packets ++ rest
      → IsTraffic uid image erase_sectors packets
  with_reset :
      (key : List ℕ) (packets rest : List (List ℕ))
      → derive_xor_key uid 0x82 ≡ ok key
      → script image erase_sectors key (ceil_div (length image) 56) ≡ cleared packets ++ rest
      → IsTraffic uid image erase_sectors (packets ++ isp_end_packet 1 ∷ [])

-- What was sent is a first part of the script.
Follows-split :
    {A : Type 0} (whole_script after : List (List ℕ)) {r : Result SessionError A}
    → Follows whole_script [] after r
    → (rest : List (List ℕ)) × (whole_script ≡ after ++ rest)
Follows-split whole_script after (finished e) = ([], sym e ∙ sym (append-nil after))
Follows-split whole_script after (stopped first rest split e) =
    (rest, split ∙ ap (λ l. l ++ rest) (sym e))

-- A first part of a first part.
split-cleared :
    (whole_script first rest rest' sent : List (List ℕ))
    → whole_script ≡ cleared sent ++ rest
    → sent ≡ first ++ rest'
    → whole_script ≡ cleared first ++ (cleared rest' ++ rest)
split-cleared whole_script first rest rest' sent e f =
    e
    ∙ ap (λ l. cleared l ++ rest) f
    ∙ ap (λ l. l ++ rest) (map-append _ first rest')
    ∙ append_assoc (cleared first) (cleared rest') rest

module _ {W : Type 0} (b : Browser W) where
  Stopped-Traffic :
      (device : ℕ) (t : Tab W) (uid image : List ℕ) (erase_sectors : ℕ) (key : List ℕ)
      (s : State (Tab W)) (rest : List (List ℕ))
      → derive_xor_key uid 0x82 ≡ ok key
      → script image erase_sectors key (ceil_div (length image) 56) ≡ cleared s.sent ++ rest
      → Stopped b device t s
      → (packets : List (List ℕ)) × IsTraffic uid image erase_sectors packets
        × OnWire b device t packets s.world
  Stopped-Traffic device t uid image erase_sectors key s rest k e (part first rest' split h) =
      (first, without_reset key first _ k (split-cleared _ first rest rest' s.sent e split), h)
  Stopped-Traffic device t uid image erase_sectors key s rest k e (whole h) =
      (s.sent ++ isp_end_packet 1 ∷ [], with_reset key s.sent rest k e, h)

  After-Traffic :
      (device : ℕ) (t : Tab W) (uid image : List ℕ) (erase_sectors : ℕ) (key : List ℕ)
      (x : Result SessionError Done × State (Tab W)) (rest : List (List ℕ))
      → derive_xor_key uid 0x82 ≡ ok key
      → script image erase_sectors key (ceil_div (length image) 56) ≡ cleared x.1.sent ++ rest
      → After (Ended b device t) (Stopped b device t) x
      → (packets : List (List ℕ)) × IsTraffic uid image erase_sectors packets
        × OnWire b device t packets x.1.world
  After-Traffic device t uid image erase_sectors key (ok d, s) rest k e h =
      (s.sent ++ isp_end_packet 1 ∷ [], with_reset key s.sent rest k e, h)
  After-Traffic device t uid image erase_sectors key (err x, s) rest k e h =
      Stopped-Traffic device t uid image erase_sectors key s rest k e h

  -- One call of the session.
  pub session-Traffic :
      (device : ℕ) (t : Tab W) (image : List ℕ) (erase_sectors : ℕ) (uid : List ℕ)
      → let x =
          program_and_verify_firmware
            (session_environment b (some device))
            image
            erase_sectors
            uid
            (record { world = t; sent = []; events = [] }) in
        (packets : List (List ℕ)) × IsTraffic uid image erase_sectors packets
        × OnWire b device t packets x.1.world
  session-Traffic device t image erase_sectors uid = by_key (derive_xor_key uid 0x82) refl
    where
      x : Result SessionError Done × State (Tab W)
      x =
          program_and_verify_firmware (session_environment b (some device)) image erase_sectors uid
            (record { world = t; sent = []; events = [] })

      by_key :
          (made : Result Fault (List ℕ))
          → derive_xor_key uid 0x82 ≡ made
          → (packets : List (List ℕ)) × IsTraffic uid image erase_sectors packets
            × OnWire b device t packets x.1.world
      by_key (ok key) e =
          let (rest, split) =
            Follows-split (script image erase_sectors key (ceil_div (length image) 56))
              (cleared x.1.sent)
              (Sends-program_and_verify_firmware (session_environment b (some device))
                (script image erase_sectors key (ceil_div (length image) 56)) image erase_sectors
                uid
                (λ k made.
                  let same : k ≡ key = cc (made, e) in
                  ap (λ k'. script image erase_sectors k' (ceil_div (length image) 56)) same)
                (record { world = t; sent = []; events = [] })) in
          After-Traffic device t uid image erase_sectors key x rest e split
            (session-OnWire b device t image erase_sectors uid)
      by_key (err f) e =
          let unchanged : x.1 ≡ record { world = t; sent = []; events = [] } =
            program_and_verify_firmware-Unchanged (session_environment b (some device)) image
              erase_sectors uid f (record { world = t; sent = []; events = [] }) e in
          (
            [],
            nothing,
            subst (λ (s : State (Tab W)). OnWire b device t [] s.world) (sym unchanged)
                (sym (append-nil t.wire), (refl, refl, refl)),
          )
