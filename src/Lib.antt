-- ===== src/Lib.antt =====
-- FrogAlert: the browser flasher of a BadgeMagic badge with a CH582 microcontroller.
--
-- The program. The flasher page talks over WebUSB to the chip's WCH ISP bootloader. It identifies the
-- chip (site/wchisp-protocol.js builds the packets and reads the responses), guides the user into the
-- bootloader (site/isp-entry-guide.js), decides whether an artifact may be flashed to the board at
-- hand (site/flasher-state.js), writes the badge's settings into the firmware image
-- (site/firmware-config.js), and runs the session that resets the configuration, erases, programs
-- and verifies the flash (site/flash-session.js). Scripts read and compare the firmware's versions.
--
-- The files.
-- Prelude: the shared names, tests on numbers, lists, results, bit laws, byte arrays, texts,
--   JSON values with the tests that the validators make of them, regular expressions, orders.
-- Protocol: the constants and errors of site/wchisp-protocol.js. Its children Command, Packets,
--   Responses and Image hold the functions, from `writeU16LE` to `validateFirmware`, in snake case;
--   Framing, ResponseLaws, ConfigLayout, Cipher and ImageLaws hold what is proved of
--   them; Printed has `sha256Hex` and `formatBootloaderVersion`.
-- Session: site/flash-session.js as functions on a state, which is the world, the log of the packets
--   sent and the log of events. Steps has `readBootloaderInfo` and `programAndVerifyFirmware` with
--   its stages; Sends and Ensures have the rules for what a run sends and what holds after it;
--   Script and its children say what the session sends, Silent what it does without a key, Confirm
--   and Verified what it has checked, Runs what it keeps of a property that its callbacks keep.
-- Config: site/firmware-config.js. Its constants and errors; Crc has the checksum, Rules the normal
--   forms, Codec `encodeFirmwareConfig` and `decodeFirmwareConfig`, Image the search for the block
--   and `patchFirmwareConfig`. Digits and Normal are about normal forms, Layout and Entries about one
--   rule, RoundTrip about all of them, Block and Whole about the block, ImageLaws about the image.
-- Flasher: State is site/flasher-state.js, Entry is site/isp-entry-guide.js, Binding and EntryPaths
--   hold what is proved of them.
-- Release: the scripts of a release. Version is scripts/frogalert-version.mjs with the policy of
--   scripts/require-firmware-version-bump.mjs, Order holds what is proved of them;
--   Sentinel is scripts/firmware-image.mjs, SentinelLaws holds what is proved of it.
-- Catalog: the descriptors of site/wchisp-protocol.js. Release has `validateReleaseCatalogDescriptor`
--   and `validateReleaseDescriptor`, Versions `compareReleaseVersions`, Sort and Paired the functions
--   on whole catalogs, Lab and Recovery the other two kinds of descriptor. VersionOrder and
--   ParsedOrder say that versions are in order, SortLaws, Groups and PairedLaws what is proved of
--   catalogs, ReleaseLaws and Kinds what is proved of descriptors.
-- Support: the USB filters and the USB configuration of site/flash-support.js, Alternates
--   and Configuration what is proved of it.
-- Vectors: `auditCh58xVectors` of scripts/audit-ch58x-vectors.mjs, Audit what is proved of it.
-- Quarantine: site/firmware-quarantine.js, Laws what is proved of it.
-- Page: the flashing part of site/app.js, as functions on the page's state over a browser. Gate has
--   the tests of the artifact against the board and the state of the flash button, Usb has
--   `usbTransfer`, `sendReset` and `closeUsb`, Load has `setFirmware` and
--   the verified download, Flash has `flashFirmware` and `startFlash`, Choose has
--   `loadReleaseArtifact` and `chooseIspButtonAndFlash`. At every
--   `await` the other event handlers run, as an arbitrary function on the state that they share.
--   Quiet, Wire and Traffic say what each function puts on the wire, FlashLaws, FlashWire and Locks
--   what a flash does as a whole, LoadLaws what a loaded firmware has passed, ChooseLaws, ButtonFlow
--   and Press what the choice of a button does.
-- Examples: runs at concrete inputs, among them a whole session with a simulated device, and the
--   press of a button on the page up to the end of its session.
--
-- Conventions. A `Uint8Array` is the list of its bytes, a string the list of its UTF-16 code units, a
-- number a natural number; a test that an argument is of its type holds by typing. What throws
-- returns a value of `Result`, with one error for each `throw`; the page numbers what it throws. The
-- callbacks of the session are an environment that may change the world and may throw at any call; no
-- law is assumed of it, except where a theorem takes `IsHonest`, the documented behaviour of the
-- verify command: a response that begins with 0 confirms the bytes. Loops recur on the list or on the number of rounds left, so no function takes fuel,
-- but for the printing of a number of a manifest, which has 21 digits at most.
--
-- Not modelled: the rest of the page (site/app.js: what it shows, its forms, connecting, the Bluetooth
-- probe, the preparation of the release pair), the permission help, the publication scripts, the
-- parsers of the vector audit, the scripts that patch third-party sources, and the firmware, which is
-- not written in JavaScript. The other event handlers of the page are in the model as arbitrary
-- functions on the shared state and the world. The packets that they send themselves (connecting is
-- locked only while a flash or another request runs) are changes of the world: the log `wire` of the
-- page has only what the modelled functions hand to a device.
pub mod Prelude
pub mod Protocol
pub mod Session
pub mod Flasher
pub mod Config
pub mod Release
pub mod Catalog
pub mod Support
pub mod Vectors
pub mod Quarantine
pub mod Page
pub mod Examples
