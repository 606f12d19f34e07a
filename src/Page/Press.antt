-- ===== src/Page/Press.antt =====
-- site/app.js: which image the choice of a button flashes, and to which device.
use frogalert.Prelude.{
  ℕ, ◌≡◌, refl, ◌∙◌, ap, ◌⊎◌, inl, inr, Bool, true, false, not, ◌&&◌, ◌++◌, Option, some, none,
  Result, ok, err, if_cases,
}
use frogalert.Page.Usb.{await_call}
use frogalert.Prelude.Text.{Text, lower_case}
use frogalert.Prelude.Bytes.{same_bytes}
use frogalert.Prelude.Json.{Json, get}
use frogalert.Catalog.Release.{text_of}
use frogalert.Flasher.State.{Hint, HintCopy, missing, blank, copied, profile_hint_for_isp_button}
use frogalert.Session.{SessionError}
use frogalert.Page.{Shared, Firmware, Tab, Browser, Async, resume, ◌>>=◌, ◌>>◌, throw_if, shared_of}
use frogalert.Page.Wire.{written_to}
use frogalert.Page.FlashWire.{Sends, session_config}
use frogalert.Page.Flash.{button_release_id, start_flash, ButtonFlash}
use frogalert.Page.Choose.{
  load_release_artifact, release_for, cannot_choose, is_unchanged, button_flash_of, release_changed,
  begin_button_flash, end_button_flash, load_and_flash, flash_release, flash_found, choose_hint,
  choose_isp_button_and_flash, not_started,
}
use frogalert.Page.ChooseLaws.{Quiet-load_release_artifact}
use frogalert.Page.ButtonFlow.{Delivers, Delivers-to, start_flash-Delivers}

module _ {W : Type 0} (b : Browser W) where
  -- What the flash of a release of the catalog puts on the wire: nothing, or a part of a session for
  -- the firmware of the page `v`, which has the digest of the release, to the device that was
  -- connected.
  abbrev pub Flashes : Option ℕ → Json → Tab W → Tab W → Tab W → Type 0
  Flashes connected release v t u =
      (u.wire ≡ t.wire)
      ⊎ ((device : ℕ) × (firmware : Firmware) × (connected ≡ some device)
          × (v.shared.firmware ≡ some firmware)
          × (same_bytes (lower_case firmware.hash) (lower_case (text_of (get release "sha256")))
              ≡ true)
          × Sends b (session_config b true v) device firmware t u)

  Flashes-button :
      (before : Shared) (position : Text) (hint : Hint) (release : Json) (now : Shared)
      (o t u : Tab W)
      → Delivers b (button_flash_of b before position hint release now) o t u
      → Flashes before.usb_device release o t u
  unfolding button_flash_of
  Flashes-button before position hint release now o t u (inl same) = inl same
  Flashes-button before position hint release now o t u
        (inr (device, firmware, loaded, (connected, hash), sends)) =
      inr (device, firmware, connected, loaded, hash, sends)

  Flashes-from :
      (connected : Option ℕ) (release : Json) (o t u v : Tab W)
      → u.wire ≡ t.wire
      → Flashes connected release o u v
      → Flashes connected release o t v
  Flashes-from connected release o t u v e (inl same) = inl (same ∙ e)
  Flashes-from connected release o t u v e
        (inr (device, firmware, found, loaded, hash, (packets, traffic, f))) =
      inr (
        device,
        firmware,
        found,
        loaded,
        hash,
        (packets, traffic, f ∙ ap (λ l. l ++ written_to device packets) e),
      )

  -- The page when the lock request returns.
  abbrev pub locked_tab : Tab W → Tab W
  locked_tab t = (await_call b b.request_lock t).1

  -- The page when the flash starts: after the download of the release and the lock request.
  abbrev pub bound_tab : Hint → Json → Tab W → Tab W
  bound_tab hint release t =
      locked_tab (load_release_artifact b release (begin_button_flash b hint t)).1

  -- The flash after the tests.
  abbrev flash_now : Shared → Text → Hint → Json → Async W (Unit {0})
  flash_now before position hint release = do
    now ← shared_of
    started ← start_flash b true (some (button_flash_of b before position hint release now))
    throw_if (not started) not_started

  resume_throw :
      {A : Type 0} (x : Result SessionError A × Tab W) (c : A → Bool) (e : SessionError)
      → (resume x (λ a. throw_if (c a) e)).1 ≡ x.1
  resume_throw (err x, u) c e = refl
  resume_throw (ok a, u) c e = go (c a)
    where
      go : (d : Bool) → (throw_if d e u).1 ≡ u
      go true = refl
      go false = refl

  flash_now-Flashes :
      (before : Shared) (position : Text) (hint : Hint) (release : Json) (t : Tab W)
      → Flashes before.usb_device release
          (locked_tab t)
          t
          (flash_now before position hint release t).1
  flash_now-Flashes before position hint release t =
      let expected : ButtonFlash = button_flash_of b before position hint release t.shared in
      let u : Tab W = (start_flash b true (some expected) t).1 in
      let v : Tab W = (flash_now before position hint release t).1 in
      Flashes-button before position hint release t.shared (locked_tab t) t v (
        Delivers-to b expected (locked_tab t) t u v (start_flash-Delivers b expected t) (
          ap (λ (w : Tab W). w.wire)
            (resume_throw (start_flash b true (some expected) t) (λ started. not started)
              not_started)))

  after_tests :
      (connected : Option ℕ) (release : Json) (c : Bool) (e : SessionError) (m : Async W (Unit {0}))
      (o t : Tab W)
      → Flashes connected release o t (m t).1
      → Flashes connected release o t ((throw_if c e >> m) t).1
  after_tests connected release true e m o t h = inl refl
  after_tests connected release false e m o t h = h

  after_load :
      (before : Shared) (position : Text) (hint : Hint) (release : Json) (t : Tab W)
      (x : Result SessionError Bool × Tab W) (test : Bool → Tab W → Bool)
      → x.1.wire ≡ t.wire
      → Flashes before.usb_device release
          (locked_tab x.1)
          t
          (resume x (λ loaded u.
            (throw_if (test loaded u) release_changed >> flash_now before position hint release)
              u)).1
  after_load before position hint release t (err e, u) test same = inl same
  after_load before position hint release t (ok loaded, u) test same =
      Flashes-from before.usb_device release (locked_tab u) t u
        ((throw_if (test loaded u) release_changed >> flash_now before position hint release) u).1
        same
        (after_tests before.usb_device release (test loaded u) release_changed
          (flash_now before position hint release) (locked_tab u) u
          (flash_now-Flashes before position hint release u))

  flash_release-Flashes :
      (before : Shared) (position : Text) (hint : Hint) (release : Json) (t : Tab W)
      → Flashes before.usb_device release
          (bound_tab hint release t)
          t
          (flash_release b before position hint release t).1
  unfolding flash_release load_and_flash begin_button_flash end_button_flash
  flash_release-Flashes before position hint release t =
      after_load before position hint release t
        (load_release_artifact b release (begin_button_flash b hint t))
        (λ loaded u. not (loaded && is_unchanged b before position (text_of (get release "id")) u))
        (Quiet-load_release_artifact b release (begin_button_flash b hint t)).0

  -- The claim for a press of a button.
  abbrev pub PressClaim : Text → Tab W → Tab W → Type 0
  PressClaim position t u =
      (u.wire ≡ t.wire)
      ⊎ ((hint : Hint) × (release : Json) × (profile_hint_for_isp_button position ≡ copied hint)
          × (release_for t.shared hint (button_release_id t.shared position) ≡ some release)
          × Flashes t.shared.usb_device release
              (bound_tab hint release
                (record t { shared = record t.shared { application_profile_hint = copied hint } }))
              t u)

  flash_found-PressClaim :
      (position : Text) (hint : Hint) (found : Option Json) (t : Tab W)
      → profile_hint_for_isp_button position ≡ copied hint
      → release_for t.shared hint (button_release_id t.shared position) ≡ found
      → PressClaim position t
          (flash_found b position hint found
            (record t { shared = record t.shared { application_profile_hint = copied hint } })).1
  unfolding flash_found
  flash_found-PressClaim position hint none t e f = inl refl
  flash_found-PressClaim position hint (some release) t e f =
      let s : Shared = record t.shared { application_profile_hint = copied hint } in
      inr (
        hint,
        release,
        e,
        f,
        flash_release-Flashes s position hint release (record t { shared = s }),
      )

  choose_hint-PressClaim :
      (position : Text) (hint : HintCopy) (t : Tab W)
      → profile_hint_for_isp_button position ≡ hint
      → PressClaim position t (choose_hint b position hint t).1
  unfolding choose_hint
  choose_hint-PressClaim position missing t e = inl refl
  choose_hint-PressClaim position blank t e = inl refl
  choose_hint-PressClaim position (copied hint) t e =
      flash_found-PressClaim position hint
        (release_for t.shared hint (button_release_id t.shared position)) t e refl

  -- Whatever the browser, the device, the server and the other handlers do, the choice of a button
  -- either sends nothing, or there is a release of the catalog for this button and its board, the
  -- page holds a firmware when it has downloaded this release and has the lock, the digest of that
  -- firmware is the one of the release, and all that the choice sends goes to the device that was
  -- connected when the button was chosen and is nothing or a first part of a session for that
  -- firmware, perhaps with the reset command at the end. What other handlers send during the download
  -- is not counted.
  pub choose_isp_button_and_flash_lem :
      (position : Text) (t : Tab W)
      → PressClaim position t (choose_isp_button_and_flash b position t).1
  unfolding choose_isp_button_and_flash
  choose_isp_button_and_flash_lem position t =
      if_cases (λ (x : Result SessionError (Unit {0}) × Tab W). PressClaim position t x.1)
        (cannot_choose b t) _ _ (λ _. inl refl)
        λ _. choose_hint-PressClaim position (profile_hint_for_isp_button position) t refl
