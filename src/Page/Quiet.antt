-- ===== src/Page/Quiet.antt =====
-- site/app.js: functions of the page that themselves hand no packet to a device, and leave the three
-- fields alone that the other handlers do not write.
use frogalert.Prelude.{
  ℕ, ◌≡◌, refl, ◌∙◌, Bool, true, false, Result, ok, err, Option, none, some, if◌then◌else◌,
}
use frogalert.Protocol.Responses.{parse_response}
use frogalert.Protocol.{Fault}
use frogalert.Session.{SessionError}
use frogalert.Page.{
  Tab, Browser, Received, Async, resume, ◌>>=◌, return, throw_if, checked, attempt,
}
use frogalert.Page.Usb.{
  hand_over, await_call, await_quietly, close_device, close_usb, forget_device, require_data,
  reset_response, receive_reset, is_acknowledged,
}
use frogalert.Protocol.Command
use frogalert.Page.Gate.{update_flash_button}

-- The fields that only the flashing functions write.
abbrev pub SameOwn : {W : Type 0} → Tab W → Tab W → Type 0
SameOwn t t' =
    (t'.flashing ≡ t.flashing)
    × (t'.active_flash_device ≡ t.active_flash_device)
    × (t'.button_flash_pending ≡ t.button_flash_pending)

abbrev pub Same : {W : Type 0} → Tab W → Tab W → Type 0
Same t t' = (t'.wire ≡ t.wire) × SameOwn t t'

abbrev pub Quiet : {W A : Type 0} → Async W A → Type 0
Quiet {W} m = (t : Tab W) → Same t (m t).1

pub Same-refl : {W : Type 0} (t : Tab W) → Same t t
Same-refl t = (refl, (refl, refl, refl))

pub SameOwn-trans : {W : Type 0} (t u v : Tab W) → SameOwn t u → SameOwn u v → SameOwn t v
SameOwn-trans t u v (a, b, c) (a', b', c') = (a' ∙ a, b' ∙ b, c' ∙ c)

pub Same-trans : {W : Type 0} (t u v : Tab W) → Same t u → Same u v → Same t v
Same-trans t u v (a, own) (a', own') = (a' ∙ a, SameOwn-trans t u v own own')

-- What follows a run is quiet, so it leaves the page as the run did.
pub Same-resume :
    {W A B : Type 0} (t : Tab W) (r : Result SessionError A × Tab W) (f : A → Async W B)
    → Same t r.1
    → ((a : A) → Quiet (f a))
    → Same t (resume r f).1
Same-resume t (ok a, u) f h k = Same-trans t u (f a u).1 h (k a u)
Same-resume t (err e, u) f h k = h

pub Quiet-bind :
    {W A B : Type 0} (m : Async W A) (f : A → Async W B)
    → Quiet m
    → ((a : A) → Quiet (f a))
    → Quiet (m >>= f)
Quiet-bind m f h k t = Same-resume t (m t) f (h t) k

pub Quiet-return : {W A : Type 0} (a : A) → Quiet (return {W = W} a)
Quiet-return a t = Same-refl t

pub Quiet-checked : {W A : Type 0} (r : Result Fault A) → Quiet (checked {W = W} r)
Quiet-checked (ok a) t = Same-refl t
Quiet-checked (err e) t = Same-refl t

pub Quiet-throw_if : {W : Type 0} (b : Bool) (e : SessionError) → Quiet (throw_if {W = W} b e)
Quiet-throw_if true e t = Same-refl t
Quiet-throw_if false e t = Same-refl t

pub Quiet-attempt : {W A : Type 0} (m : Async W A) → Quiet m → Quiet (attempt m)
Quiet-attempt m h t = h t

pub Quiet-require_data :
    {W : Type 0} (b : Browser W) (received : Received) → Quiet (require_data b received)
unfolding require_data
Quiet-require_data b received t = Same-refl t

-- Either branch.
pub Same-if :
    {W A : Type 0} (c : Bool) (t : Tab W) (x y : Result SessionError A × Tab W)
    → Same t x.1
    → Same t y.1
    → Same t (if c then x else y).1
Same-if true t x y h k = h
Same-if false t x y h k = k

pub Quiet-update_flash_button : {W : Type 0} → Quiet (update_flash_button {W = W})
unfolding update_flash_button
Quiet-update_flash_button t = Same-refl t

module _ {W : Type 0} (b : Browser W) where
  pub Quiet-await_call :
      {A : Type 0} (call : W → Result SessionError A × W) → Quiet (await_call b call)
  unfolding await_call hand_over
  Quiet-await_call call t = Same-refl t

  pub Quiet-await_quietly :
      (call : W → Result SessionError (Unit {0}) × W) → Quiet (await_quietly b call)
  unfolding await_quietly
  Quiet-await_quietly call =
      Quiet-bind (attempt (await_call b call)) (λ r. return tt)
        (Quiet-attempt (await_call b call) (Quiet-await_call call)) λ r. Quiet-return tt

  Quiet-receive_reset : (device : ℕ) → Quiet (receive_reset b device)
  unfolding receive_reset
  Quiet-receive_reset device =
      Quiet-bind (await_call b (b.transfer_in device 1500)) _
        (Quiet-await_call (b.transfer_in device 1500))
        λ received.
          Quiet-bind (require_data b received) _ (Quiet-require_data b received)
            λ bytes. Quiet-checked (parse_response bytes Command.isp_end)

  pub Quiet-reset_response : (device : ℕ) → Quiet (reset_response b device)
  unfolding reset_response
  Quiet-reset_response device =
      Quiet-bind (attempt (receive_reset b device)) (λ r. return (is_acknowledged r))
        (Quiet-attempt (receive_reset b device) (Quiet-receive_reset device))
        λ r. Quiet-return (is_acknowledged r)

  Quiet-close_device : (device : Option ℕ) → Quiet (close_device b device)
  unfolding close_device
  Quiet-close_device none t = Same-refl t
  Quiet-close_device (some device) t =
      Same-if (b.opened device t.world) t _ _
        (Quiet-bind (await_quietly b (b.release_interface device))
          (λ _. await_quietly b (b.close device)) (Quiet-await_quietly (b.release_interface device))
          (λ _. Quiet-await_quietly (b.close device)) t)
        (Same-refl t)

  pub Quiet-close_usb : Quiet (close_usb b)
  unfolding close_usb forget_device
  Quiet-close_usb t = Quiet-close_device t.shared.usb_device (forget_device b t)
