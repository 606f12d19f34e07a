-- ===== src/Protocol/Command.antt =====
-- site/wchisp-protocol.js, `COMMAND`: the command bytes.
use frogalert.Prelude.{ℕ}

abbrev pub identify : ℕ
identify = 0xa1

abbrev pub isp_end : ℕ
isp_end = 0xa2

abbrev pub isp_key : ℕ
isp_key = 0xa3

abbrev pub erase : ℕ
erase = 0xa4

abbrev pub program : ℕ
program = 0xa5

abbrev pub verify : ℕ
verify = 0xa6

abbrev pub read_config : ℕ
read_config = 0xa7

abbrev pub write_config : ℕ
write_config = 0xa8
