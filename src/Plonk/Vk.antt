-- ===== src/Plonk/Vk.antt =====
-- program/src/plonk/vk.rs: the circuit constants of the pinned Zisk release.
use zkasper_solana.Base.{ℕ, [], ◌∷◌}
use zkasper_solana.Base.Slices.{Bytes}

abbrev pub qm : Bytes
qm =
    0x04 ∷ 0x7c ∷ 0x92 ∷ 0xa4 ∷ 0x15 ∷ 0x36 ∷ 0xfa ∷ 0x81 ∷ 0x2a ∷ 0x76 ∷ 0x45 ∷ 0x7d ∷ 0x19 ∷ 0xdd
    ∷ 0x94 ∷ 0xad ∷ 0x52 ∷ 0x30 ∷ 0x07 ∷ 0xb2 ∷ 0x23 ∷ 0x46 ∷ 0xe6 ∷ 0x70 ∷ 0x1c ∷ 0xc2 ∷ 0xdc
    ∷ 0x6f ∷ 0x71 ∷ 0x13 ∷ 0x48 ∷ 0xca ∷ 0x17 ∷ 0x81 ∷ 0x13 ∷ 0x2d ∷ 0xa6 ∷ 0xf0 ∷ 0x70 ∷ 0xf9
    ∷ 0x70 ∷ 0x86 ∷ 0x33 ∷ 0xab ∷ 0x34 ∷ 0x1c ∷ 0xe0 ∷ 0xba ∷ 0xb8 ∷ 0xcc ∷ 0x9b ∷ 0x1f ∷ 0x67
    ∷ 0x20 ∷ 0x69 ∷ 0xa7 ∷ 0xb3 ∷ 0x2b ∷ 0x23 ∷ 0x00 ∷ 0x26 ∷ 0xd3 ∷ 0x0d ∷ 0xbc ∷ []

abbrev pub ql : Bytes
ql =
    0x13 ∷ 0xf4 ∷ 0xa3 ∷ 0x62 ∷ 0xc5 ∷ 0x71 ∷ 0x0a ∷ 0x04 ∷ 0x03 ∷ 0xe3 ∷ 0x09 ∷ 0x25 ∷ 0xcb ∷ 0x39
    ∷ 0x08 ∷ 0xa9 ∷ 0xec ∷ 0xac ∷ 0x15 ∷ 0x94 ∷ 0xad ∷ 0x58 ∷ 0xd2 ∷ 0x93 ∷ 0x41 ∷ 0x3b ∷ 0x43
    ∷ 0xc4 ∷ 0x39 ∷ 0x41 ∷ 0x08 ∷ 0x21 ∷ 0x0a ∷ 0xf7 ∷ 0xd4 ∷ 0x5f ∷ 0x22 ∷ 0xf9 ∷ 0xeb ∷ 0xb6
    ∷ 0xb0 ∷ 0x28 ∷ 0x57 ∷ 0xb9 ∷ 0xa2 ∷ 0x3a ∷ 0x4a ∷ 0x53 ∷ 0x0f ∷ 0xbb ∷ 0xa1 ∷ 0x30 ∷ 0x9e
    ∷ 0xc6 ∷ 0x62 ∷ 0x9c ∷ 0x96 ∷ 0x5b ∷ 0xe4 ∷ 0x3e ∷ 0xa8 ∷ 0xf4 ∷ 0x21 ∷ 0xb4 ∷ []

abbrev pub qr : Bytes
qr =
    0x26 ∷ 0x04 ∷ 0xdb ∷ 0x3f ∷ 0x43 ∷ 0x36 ∷ 0xc2 ∷ 0x60 ∷ 0xf5 ∷ 0x0a ∷ 0x82 ∷ 0xef ∷ 0x56 ∷ 0xfa
    ∷ 0xb0 ∷ 0x26 ∷ 0x34 ∷ 0x28 ∷ 0x65 ∷ 0xfd ∷ 0x6c ∷ 0x80 ∷ 0x25 ∷ 0xc7 ∷ 0xb2 ∷ 0x24 ∷ 0xe8
    ∷ 0x77 ∷ 0x3e ∷ 0x16 ∷ 0x1a ∷ 0xc9 ∷ 0x26 ∷ 0xaa ∷ 0x67 ∷ 0xc1 ∷ 0xfe ∷ 0x56 ∷ 0x6b ∷ 0x1b
    ∷ 0xf7 ∷ 0xf4 ∷ 0xb1 ∷ 0x79 ∷ 0xa1 ∷ 0x4e ∷ 0xd8 ∷ 0x21 ∷ 0x3e ∷ 0x31 ∷ 0x1a ∷ 0xc3 ∷ 0x31
    ∷ 0x3c ∷ 0xb1 ∷ 0xf2 ∷ 0x6b ∷ 0x14 ∷ 0x2e ∷ 0x61 ∷ 0x96 ∷ 0x6f ∷ 0xbe ∷ 0xa0 ∷ []

abbrev pub qo : Bytes
qo =
    0x22 ∷ 0x8f ∷ 0x54 ∷ 0x3d ∷ 0x11 ∷ 0x72 ∷ 0x48 ∷ 0x9c ∷ 0x87 ∷ 0x32 ∷ 0xe9 ∷ 0x11 ∷ 0x35 ∷ 0xfe
    ∷ 0x71 ∷ 0x6b ∷ 0x94 ∷ 0xbb ∷ 0x2d ∷ 0x0f ∷ 0x2b ∷ 0x63 ∷ 0x68 ∷ 0xe8 ∷ 0xb2 ∷ 0x76 ∷ 0x12
    ∷ 0x0d ∷ 0xa6 ∷ 0x95 ∷ 0x97 ∷ 0x80 ∷ 0x13 ∷ 0xe8 ∷ 0x2a ∷ 0xe8 ∷ 0xc2 ∷ 0x5a ∷ 0xe4 ∷ 0x7d
    ∷ 0x20 ∷ 0x4b ∷ 0x7c ∷ 0xe6 ∷ 0x19 ∷ 0x9e ∷ 0x0a ∷ 0xf6 ∷ 0xb0 ∷ 0xc9 ∷ 0xdf ∷ 0xb1 ∷ 0xc6
    ∷ 0x14 ∷ 0xd0 ∷ 0x43 ∷ 0x66 ∷ 0xf1 ∷ 0xaf ∷ 0xb8 ∷ 0x53 ∷ 0xc7 ∷ 0x2e ∷ 0xe7 ∷ []

abbrev pub qc : Bytes
qc =
    0x1a ∷ 0x3d ∷ 0xb7 ∷ 0x35 ∷ 0xa2 ∷ 0xb8 ∷ 0xff ∷ 0x9f ∷ 0xc5 ∷ 0x10 ∷ 0xbd ∷ 0xce ∷ 0x7a ∷ 0x50
    ∷ 0x9c ∷ 0x0f ∷ 0xec ∷ 0x50 ∷ 0x42 ∷ 0xd1 ∷ 0x31 ∷ 0xda ∷ 0x79 ∷ 0xa0 ∷ 0x7b ∷ 0x21 ∷ 0xca
    ∷ 0x4d ∷ 0x31 ∷ 0x09 ∷ 0xa2 ∷ 0xe3 ∷ 0x11 ∷ 0x8b ∷ 0xfa ∷ 0x32 ∷ 0x67 ∷ 0x07 ∷ 0x49 ∷ 0xc8
    ∷ 0x61 ∷ 0x2f ∷ 0xe7 ∷ 0xd0 ∷ 0x6d ∷ 0x36 ∷ 0x7d ∷ 0xf3 ∷ 0xfa ∷ 0xe0 ∷ 0x4d ∷ 0xaf ∷ 0xf3
    ∷ 0xad ∷ 0xd3 ∷ 0x2c ∷ 0x13 ∷ 0x2b ∷ 0x7a ∷ 0xdd ∷ 0x78 ∷ 0xa4 ∷ 0x6b ∷ 0x01 ∷ []

abbrev pub s1 : Bytes
s1 =
    0x2a ∷ 0xf7 ∷ 0xf9 ∷ 0x4e ∷ 0x01 ∷ 0x2e ∷ 0x6f ∷ 0x04 ∷ 0x06 ∷ 0x10 ∷ 0xaf ∷ 0xbd ∷ 0x51 ∷ 0x84
    ∷ 0x4d ∷ 0x21 ∷ 0x3b ∷ 0xd6 ∷ 0xfe ∷ 0x2d ∷ 0x0d ∷ 0xf4 ∷ 0xda ∷ 0x2c ∷ 0xf5 ∷ 0xf0 ∷ 0x07
    ∷ 0xc4 ∷ 0x2e ∷ 0x34 ∷ 0xe0 ∷ 0xce ∷ 0x1e ∷ 0x3d ∷ 0xd5 ∷ 0x26 ∷ 0x2d ∷ 0x85 ∷ 0x73 ∷ 0x74
    ∷ 0xb3 ∷ 0x63 ∷ 0xdb ∷ 0x3c ∷ 0x5b ∷ 0xfb ∷ 0xb7 ∷ 0x5b ∷ 0xc8 ∷ 0x94 ∷ 0xc5 ∷ 0xa1 ∷ 0xb2
    ∷ 0x17 ∷ 0x55 ∷ 0xfe ∷ 0x61 ∷ 0x9d ∷ 0xbe ∷ 0xa2 ∷ 0x3d ∷ 0xe3 ∷ 0x63 ∷ 0x21 ∷ []

abbrev pub s2 : Bytes
s2 =
    0x1d ∷ 0x6c ∷ 0x79 ∷ 0xc6 ∷ 0xae ∷ 0x6d ∷ 0xdd ∷ 0x24 ∷ 0x23 ∷ 0x26 ∷ 0x61 ∷ 0x13 ∷ 0xad ∷ 0x9a
    ∷ 0x30 ∷ 0x62 ∷ 0x65 ∷ 0x58 ∷ 0x28 ∷ 0x38 ∷ 0x5d ∷ 0xbf ∷ 0xfd ∷ 0x7c ∷ 0x62 ∷ 0xfb ∷ 0x4d
    ∷ 0x6d ∷ 0x42 ∷ 0x1e ∷ 0x0c ∷ 0x22 ∷ 0x0d ∷ 0xf6 ∷ 0x27 ∷ 0x17 ∷ 0xde ∷ 0x93 ∷ 0x42 ∷ 0x5e
    ∷ 0xed ∷ 0xcf ∷ 0x9d ∷ 0xc0 ∷ 0xee ∷ 0xba ∷ 0xc3 ∷ 0x98 ∷ 0x55 ∷ 0x22 ∷ 0xd9 ∷ 0x78 ∷ 0x08
    ∷ 0x28 ∷ 0x8f ∷ 0x58 ∷ 0xe9 ∷ 0xb6 ∷ 0xdf ∷ 0xcf ∷ 0x06 ∷ 0x45 ∷ 0x4a ∷ 0x9e ∷ []

abbrev pub s3 : Bytes
s3 =
    0x24 ∷ 0x44 ∷ 0x2f ∷ 0x45 ∷ 0x68 ∷ 0xba ∷ 0x56 ∷ 0x33 ∷ 0x56 ∷ 0xba ∷ 0x4b ∷ 0xc9 ∷ 0xbf ∷ 0xb9
    ∷ 0x62 ∷ 0x9f ∷ 0x81 ∷ 0x8b ∷ 0xa4 ∷ 0xe2 ∷ 0xc3 ∷ 0x3f ∷ 0xb9 ∷ 0x79 ∷ 0xf6 ∷ 0x75 ∷ 0xc4
    ∷ 0xcf ∷ 0x68 ∷ 0x75 ∷ 0x0c ∷ 0xbe ∷ 0x1e ∷ 0x55 ∷ 0x78 ∷ 0xb0 ∷ 0x5a ∷ 0xb2 ∷ 0xe2 ∷ 0x5e
    ∷ 0x08 ∷ 0xe4 ∷ 0xf9 ∷ 0x89 ∷ 0x32 ∷ 0xe5 ∷ 0x2f ∷ 0xd4 ∷ 0xf4 ∷ 0xc4 ∷ 0x1f ∷ 0xbe ∷ 0x04
    ∷ 0x90 ∷ 0xe3 ∷ 0x56 ∷ 0x7b ∷ 0x3e ∷ 0xef ∷ 0xa6 ∷ 0x7f ∷ 0xb8 ∷ 0xeb ∷ 0xda ∷ []

abbrev pub g1_gen : Bytes
g1_gen =
    0x00 ∷ 0x00 ∷ 0x00 ∷ 0x00 ∷ 0x00 ∷ 0x00 ∷ 0x00 ∷ 0x00 ∷ 0x00 ∷ 0x00 ∷ 0x00 ∷ 0x00 ∷ 0x00 ∷ 0x00
    ∷ 0x00 ∷ 0x00 ∷ 0x00 ∷ 0x00 ∷ 0x00 ∷ 0x00 ∷ 0x00 ∷ 0x00 ∷ 0x00 ∷ 0x00 ∷ 0x00 ∷ 0x00 ∷ 0x00
    ∷ 0x00 ∷ 0x00 ∷ 0x00 ∷ 0x00 ∷ 0x01 ∷ 0x00 ∷ 0x00 ∷ 0x00 ∷ 0x00 ∷ 0x00 ∷ 0x00 ∷ 0x00 ∷ 0x00
    ∷ 0x00 ∷ 0x00 ∷ 0x00 ∷ 0x00 ∷ 0x00 ∷ 0x00 ∷ 0x00 ∷ 0x00 ∷ 0x00 ∷ 0x00 ∷ 0x00 ∷ 0x00 ∷ 0x00
    ∷ 0x00 ∷ 0x00 ∷ 0x00 ∷ 0x00 ∷ 0x00 ∷ 0x00 ∷ 0x00 ∷ 0x00 ∷ 0x00 ∷ 0x00 ∷ 0x02 ∷ []

abbrev pub g2_gen : Bytes
g2_gen =
    0x19 ∷ 0x8e ∷ 0x93 ∷ 0x93 ∷ 0x92 ∷ 0x0d ∷ 0x48 ∷ 0x3a ∷ 0x72 ∷ 0x60 ∷ 0xbf ∷ 0xb7 ∷ 0x31 ∷ 0xfb
    ∷ 0x5d ∷ 0x25 ∷ 0xf1 ∷ 0xaa ∷ 0x49 ∷ 0x33 ∷ 0x35 ∷ 0xa9 ∷ 0xe7 ∷ 0x12 ∷ 0x97 ∷ 0xe4 ∷ 0x85
    ∷ 0xb7 ∷ 0xae ∷ 0xf3 ∷ 0x12 ∷ 0xc2 ∷ 0x18 ∷ 0x00 ∷ 0xde ∷ 0xef ∷ 0x12 ∷ 0x1f ∷ 0x1e ∷ 0x76
    ∷ 0x42 ∷ 0x6a ∷ 0x00 ∷ 0x66 ∷ 0x5e ∷ 0x5c ∷ 0x44 ∷ 0x79 ∷ 0x67 ∷ 0x43 ∷ 0x22 ∷ 0xd4 ∷ 0xf7
    ∷ 0x5e ∷ 0xda ∷ 0xdd ∷ 0x46 ∷ 0xde ∷ 0xbd ∷ 0x5c ∷ 0xd9 ∷ 0x92 ∷ 0xf6 ∷ 0xed ∷ 0x09 ∷ 0x06
    ∷ 0x89 ∷ 0xd0 ∷ 0x58 ∷ 0x5f ∷ 0xf0 ∷ 0x75 ∷ 0xec ∷ 0x9e ∷ 0x99 ∷ 0xad ∷ 0x69 ∷ 0x0c ∷ 0x33
    ∷ 0x95 ∷ 0xbc ∷ 0x4b ∷ 0x31 ∷ 0x33 ∷ 0x70 ∷ 0xb3 ∷ 0x8e ∷ 0xf3 ∷ 0x55 ∷ 0xac ∷ 0xda ∷ 0xdc
    ∷ 0xd1 ∷ 0x22 ∷ 0x97 ∷ 0x5b ∷ 0x12 ∷ 0xc8 ∷ 0x5e ∷ 0xa5 ∷ 0xdb ∷ 0x8c ∷ 0x6d ∷ 0xeb ∷ 0x4a
    ∷ 0xab ∷ 0x71 ∷ 0x80 ∷ 0x8d ∷ 0xcb ∷ 0x40 ∷ 0x8f ∷ 0xe3 ∷ 0xd1 ∷ 0xe7 ∷ 0x69 ∷ 0x0c ∷ 0x43
    ∷ 0xd3 ∷ 0x7b ∷ 0x4c ∷ 0xe6 ∷ 0xcc ∷ 0x01 ∷ 0x66 ∷ 0xfa ∷ 0x7d ∷ 0xaa ∷ []

abbrev pub x_2 : Bytes
x_2 =
    0x26 ∷ 0x18 ∷ 0x6a ∷ 0x2d ∷ 0x65 ∷ 0xee ∷ 0x4d ∷ 0x2f ∷ 0x9c ∷ 0x9a ∷ 0x5b ∷ 0x91 ∷ 0xf8 ∷ 0x65
    ∷ 0x97 ∷ 0xd3 ∷ 0x5f ∷ 0x19 ∷ 0x2c ∷ 0xd1 ∷ 0x20 ∷ 0xca ∷ 0xf7 ∷ 0xe9 ∷ 0x35 ∷ 0xd8 ∷ 0x44
    ∷ 0x3d ∷ 0x19 ∷ 0x38 ∷ 0xe2 ∷ 0x3d ∷ 0x30 ∷ 0x44 ∷ 0x1f ∷ 0xd1 ∷ 0xb5 ∷ 0xd3 ∷ 0x37 ∷ 0x04
    ∷ 0x82 ∷ 0xc4 ∷ 0x21 ∷ 0x52 ∷ 0xa8 ∷ 0x89 ∷ 0x90 ∷ 0x27 ∷ 0x71 ∷ 0x69 ∷ 0x89 ∷ 0xa6 ∷ 0x99
    ∷ 0x6c ∷ 0x25 ∷ 0x35 ∷ 0xbc ∷ 0x9f ∷ 0x7f ∷ 0xee ∷ 0x8a ∷ 0xae ∷ 0xf7 ∷ 0x9e ∷ 0x19 ∷ 0x70
    ∷ 0xea ∷ 0x81 ∷ 0xdd ∷ 0x69 ∷ 0x92 ∷ 0xad ∷ 0xfb ∷ 0xc5 ∷ 0x71 ∷ 0xef ∷ 0xfb ∷ 0x03 ∷ 0x50
    ∷ 0x3a ∷ 0xdb ∷ 0xbb ∷ 0x6a ∷ 0x85 ∷ 0x7f ∷ 0x57 ∷ 0x84 ∷ 0x03 ∷ 0xc6 ∷ 0xc4 ∷ 0x0e ∷ 0x22
    ∷ 0xd6 ∷ 0x5b ∷ 0x3c ∷ 0x02 ∷ 0x05 ∷ 0x47 ∷ 0x93 ∷ 0x34 ∷ 0x8f ∷ 0x12 ∷ 0xc0 ∷ 0xcf ∷ 0x56
    ∷ 0x22 ∷ 0xc3 ∷ 0x40 ∷ 0x57 ∷ 0x3c ∷ 0xb2 ∷ 0x77 ∷ 0x58 ∷ 0x63 ∷ 0x19 ∷ 0xde ∷ 0x35 ∷ 0x9a
    ∷ 0xb9 ∷ 0x38 ∷ 0x97 ∷ 0x78 ∷ 0xf6 ∷ 0x89 ∷ 0x78 ∷ 0x6b ∷ 0x1e ∷ 0x48 ∷ []

abbrev pub w1 : Bytes
w1 =
    0x0c ∷ 0x9f ∷ 0xab ∷ 0xc7 ∷ 0x84 ∷ 0x5d ∷ 0x50 ∷ 0xd2 ∷ 0x85 ∷ 0x2e ∷ 0x2a ∷ 0x03 ∷ 0x71 ∷ 0xc6
    ∷ 0x44 ∷ 0x1f ∷ 0x14 ∷ 0x5e ∷ 0x0d ∷ 0xb8 ∷ 0x2e ∷ 0x83 ∷ 0x26 ∷ 0x96 ∷ 0x1c ∷ 0x25 ∷ 0xf1
    ∷ 0xe3 ∷ 0xe3 ∷ 0x2b ∷ 0x04 ∷ 0x5b ∷ []

abbrev pub root_c_vadcop_final : Bytes
root_c_vadcop_final =
    0xa3 ∷ 0xc3 ∷ 0xeb ∷ 0x53 ∷ 0x43 ∷ 0xd8 ∷ 0x0a ∷ 0xfe ∷ 0x53 ∷ 0xed ∷ 0xc0 ∷ 0x3f ∷ 0xfa ∷ 0x4b
    ∷ 0xab ∷ 0x04 ∷ 0xa2 ∷ 0x61 ∷ 0x6c ∷ 0x14 ∷ 0xf6 ∷ 0xec ∷ 0x85 ∷ 0x40 ∷ 0xa9 ∷ 0xaf ∷ 0x02
    ∷ 0x40 ∷ 0x55 ∷ 0xc8 ∷ 0x7d ∷ 0xf1 ∷ []

abbrev pub k1 : ℕ
k1 = 2

abbrev pub k2 : ℕ
k2 = 3

abbrev pub n : ℕ
n = 16777216

abbrev pub power : ℕ
power = 24

abbrev pub n_public : ℕ
n_public = 1

abbrev pub public_values_len : ℕ
public_values_len = 512
