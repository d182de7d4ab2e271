-- ===== src/Tests/Decoding.antt =====
-- Fetch, expansion and the device table.
use esp32_p4_linux_hyperviso.Base.{ℕ, ◌+◌, ◌*◌, ◌≡◌, arith}
use esp32_p4_linux_hyperviso.Decode.{rvc_expand}
use esp32_p4_linux_hyperviso.Decode.Rvc.{c_lw, c_sw, lw, sw}
use esp32_p4_linux_hyperviso.Decode.Rvc.{rvc_expand-compressed}

rvc_expand-compressed_example :
    let rx : ℕ = 1 in
    let rs1 : ℕ = 2 in
    let w : ℕ = 19 in
    (rvc_expand (c_lw rx rs1 w) ≡ lw (8 + rx) (8 + rs1) (4 * w))
    × (rvc_expand (c_sw rx rs1 w) ≡ sw (8 + rx) (8 + rs1) (4 * w))
rvc_expand-compressed_example =
    rvc_expand-compressed 1 2 19 (omega arith) (omega arith) (omega arith)
