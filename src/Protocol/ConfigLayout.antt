-- ===== src/Protocol/ConfigLayout.antt =====
-- site/wchisp-protocol.js: the layout of a configuration that `parseConfig` reads.
use frogalert.Prelude.{
  ℕ, ◌+◌, ◌-◌, ◌≤◌, ◌≡◌, ◌↔◌, ◌∙◌, refl, sym, ap, subst, List, [], ◌∷◌, ◌++◌, arith, length, take,
  drop, ok, take-append-drop, take-append_exact, drop-append_exact, drop-drop, append_assoc,
  length-append, suc, zero,
}
use frogalert.Prelude.Bytes.{IsBytes, slice, length-slice}
use frogalert.Protocol.ResponseLaws.{IsUid, validate_uid_iff}
use frogalert.Protocol.Responses.{BootConfig, parse_config, parse_config_registers, validate_uid}

-- What `parseConfig` cuts out.
abbrev cut_config : List ℕ → BootConfig
cut_config payload = record {
  bootloader_version = slice payload 14 18;
  uid = slice payload 18 26;
  registers = slice payload 2 14;
}

parse_config-cut :
    (payload : List ℕ) (config : BootConfig)
    → (parse_config payload ≡ ok config) ↔ (
        (26 ≤ length payload)
        × (validate_uid (slice payload 18 26) ≡ ok tt)
        × (config ≡ cut_config payload))
unfolding parse_config parse_config_registers
parse_config-cut payload config = ground arith

IsUid-length : (uid : List ℕ) → IsUid uid → length uid ≡ 8
IsUid-length (a ∷ b ∷ c ∷ d ∷ e ∷ f ∷ g ∷ h ∷ []) u = refl
IsUid-length _ u = absurd u

-- What stands between two parts.
slice-middle :
    (pre mid post : List ℕ) (start size : ℕ)
    → length pre ≡ start
    → length mid ≡ size
    → slice (pre ++ (mid ++ post)) start (start + size) ≡ mid
slice-middle pre mid post start size e f =
    let whole : start + size - start ≡ size = omega arith in
    ap (λ l. take (start + size - start) l) (drop-append_exact start pre (mid ++ post) e)
    ∙ ap (λ n. take n (mid ++ post)) whole
    ∙ take-append_exact size mid post f

IsBytes-drop : (n : ℕ) (xs : List ℕ) → IsBytes xs → IsBytes (drop n xs)
IsBytes-drop zero xs h = h
IsBytes-drop (suc n) [] h = h
IsBytes-drop (suc n) (x ∷ xs) h = IsBytes-drop n xs h.1

IsBytes-take : (n : ℕ) (xs : List ℕ) → IsBytes xs → IsBytes (take n xs)
IsBytes-take zero xs h = tt
IsBytes-take (suc n) [] h = tt
IsBytes-take (suc n) (x ∷ xs) h = (h.0, IsBytes-take n xs h.1)

-- The layout: two bytes, the registers, the version, the UID, and whatever follows.
pub record HasLayout (payload : List ℕ) (config : BootConfig) : Type 0 where
  pub head : List ℕ
  pub tail : List ℕ
  pub parts :
      payload ≡ head ++ (config.registers ++ (config.bootloader_version ++ (config.uid ++ tail)))
  pub two : length head ≡ 2
  pub twelve : length config.registers ≡ 12
  pub four : length config.bootloader_version ≡ 4
  pub checked : IsUid config.uid

next_part :
    (payload : List ℕ) (start size : ℕ)
    → slice payload start (start + size) ++ drop (start + size) payload ≡ drop start payload
next_part payload start size =
    let whole : start + size - start ≡ size = omega arith in
    ap (λ n. take n (drop start payload) ++ drop (start + size) payload) whole
    ∙ ap (λ l. take size (drop start payload) ++ l) (sym (drop-drop start size payload))
    ∙ take-append-drop size (drop start payload)

cut_config-HasLayout :
    (payload : List ℕ)
    → IsBytes payload
    → 26 ≤ length payload
    → validate_uid (slice payload 18 26) ≡ ok tt
    → HasLayout payload (cut_config payload)
cut_config-HasLayout payload bs long valid = record {
  head = slice payload 0 2;
  tail = drop 26 payload;
  parts = sym (
      ap (λ l. slice payload 0 2 ++ (slice payload 2 14 ++ (slice payload 14 18 ++ l)))
        (next_part payload 18 8)
      ∙ ap (λ l. slice payload 0 2 ++ (slice payload 2 14 ++ l)) (next_part payload 14 4)
      ∙ ap (λ l. slice payload 0 2 ++ l) (next_part payload 2 12)
      ∙ next_part payload 0 2);
  two = omega (arith, length-slice payload 0 2);
  twelve = omega (arith, length-slice payload 2 12);
  four = omega (arith, length-slice payload 14 4);
  checked =
      (validate_uid_iff (slice payload 18 26)
          (IsBytes-take 8 (drop 18 payload) (IsBytes-drop 18 payload bs))).0
        valid;
}

-- The parts of a payload with this layout are where `parseConfig` reads them.
layout-cut :
    (payload : List ℕ) (config : BootConfig)
    → HasLayout payload config
    → (26 ≤ length payload) × (cut_config payload ≡ config)
layout-cut payload config h =
    let r = config.registers in
    let v = config.bootloader_version in
    let u = config.uid in
    let eight = IsUid-length u h.checked in
    let second : payload ≡ (h.head ++ r) ++ (v ++ (u ++ h.tail)) =
      h.parts ∙ sym (append_assoc h.head r (v ++ (u ++ h.tail))) in
    let third : payload ≡ ((h.head ++ r) ++ v) ++ (u ++ h.tail) =
      second ∙ sym (append_assoc (h.head ++ r) v (u ++ h.tail)) in
    let n14 : length (h.head ++ r) ≡ 14 = omega (arith, length-append h.head r, h.two, h.twelve) in
    let n18 : length ((h.head ++ r) ++ v) ≡ 18 =
      omega (arith, length-append (h.head ++ r) v, n14, h.four) in
    let whole : length payload ≡ 18 + (8 + length h.tail) =
      ap length third
      ∙ omega (arith, length-append ((h.head ++ r) ++ v) (u ++ h.tail), length-append u h.tail) in
    let registers : slice payload 2 14 ≡ r =
      ap (λ p. slice p 2 14) h.parts
      ∙ slice-middle h.head r (v ++ (u ++ h.tail)) 2 12 h.two h.twelve in
    let version : slice payload 14 18 ≡ v =
      ap (λ p. slice p 14 18) second ∙ slice-middle (h.head ++ r) v (u ++ h.tail) 14 4 n14 h.four in
    let uid : slice payload 18 26 ≡ u =
      ap (λ p. slice p 18 26) third ∙ slice-middle ((h.head ++ r) ++ v) u h.tail 18 8 n18 eight in
    (omega arith, cc (registers, version, uid))

-- A payload is read as a configuration exactly if it is two bytes, the twelve bytes of the registers,
-- the four of the version, a UID with the right checksum, and any further bytes, where the
-- configuration has these registers, this version and this UID.
pub parse_config_iff :
    (payload : List ℕ) (config : BootConfig)
    → IsBytes payload
    → (parse_config payload ≡ ok config) ↔ HasLayout payload config
parse_config_iff payload config bs = (
  λ h.
      let (long, valid, same) = (parse_config-cut payload config).0 h in
      subst (HasLayout payload) (sym same) (cut_config-HasLayout payload bs long valid),
  λ h.
      let (long, same) = layout-cut payload config h in
      let bytes : IsBytes (slice payload 18 26) =
        IsBytes-take 8 (drop 18 payload) (IsBytes-drop 18 payload bs) in
      let right : IsUid (slice payload 18 26) =
        subst (λ (c : BootConfig). IsUid c.uid) (sym same) h.checked in
      (parse_config-cut payload config).1
        (long, (validate_uid_iff (slice payload 18 26) bytes).1 right, sym same),
)
