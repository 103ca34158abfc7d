-- ===== src/L2/Fields.antt =====
-- The checksum field of UDP and of BCMP, with a port added and taken away again.
use bristlemouth_rs.Common.{
  ℕ, zero, suc, ◌+◌, ◌-◌, ◌*◌, ◌/◌, ◌%◌, ◌<◌, ◌≡◌, ◌≢◌, refl, ap, ◌∙◌, List, [], ◌∷◌, arith, length,
  get_or, set, All, All-get_or, u16_at, IsByte, length-set, get_or-set_self, get_or-set_ne, set-set,
  set_comm, set-get_or, from_le_bytes,
}
use bristlemouth_rs.L2.{
  ports_offset, bcmp_checksum_offset, udp_checksum_offset, ethernet_type, is_ipv6, Patch, add,
  subtract, apply_port, patch_udp, patch_bcmp,
}

pub u16_at-get_or :
    (f : List ℕ) (i : ℕ) → suc i < length f → u16_at f i ≡ get_or f i 0 + 256 * get_or f (suc i) 0
unfolding u16_at from_le_bytes
u16_at-get_or [] i h = absurd (omega arith)
u16_at-get_or (x ∷ []) i h = absurd (omega arith)
u16_at-get_or (x ∷ (y ∷ ys)) zero h = omega arith
u16_at-get_or (x ∷ (y ∷ ys)) (suc i) h = u16_at-get_or (y ∷ ys) i (omega arith)

pub is_ipv6-set : (f : List ℕ) (i v : ℕ) → i ≢ 12 → i ≢ 13 → is_ipv6 (set f i v) ≡ is_ipv6 f
unfolding is_ipv6 ethernet_type
is_ipv6-set f i v h k =
    rw
      (
        is_ipv6,
        ethernet_type,
        length-set f i v,
        get_or-set_ne f i 12 v 0 h,
        get_or-set_ne f i 13 v 0 k,
      )
      refl

-- Adding the port to the complement and taking it away again.
udp_undone :
    (b port : ℕ)
    → b < 256
    → port < 256
    → 255 - apply_port subtract 256 (255 - (255 - apply_port add 256 (255 - b) port)) port ≡ b
unfolding apply_port
udp_undone b port hb hp = omega arith

bcmp_undone :
    (w port : ℕ)
    → w < 65536
    → port < 256
    → 65535
        - apply_port subtract 65536 (65535 - (65535 - apply_port add 65536 (65535 - w) port)) port
      ≡ w
unfolding apply_port
bcmp_undone w port hw hp = omega arith

pub patch_udp-set :
    (op : Patch) (port b : ℕ) (f : List ℕ)
    → set (patch_udp op port f) ports_offset b ≡ patch_udp op port (set f ports_offset b)
unfolding patch_udp
patch_udp-set op port b f =
    rw (get_or-set_ne f ports_offset udp_checksum_offset b 0 (ground arith))
      (set_comm f udp_checksum_offset ports_offset _ b (ground arith))

pub patch_udp-undone :
    (port : ℕ) (f : List ℕ)
    → port < 256
    → get_or f udp_checksum_offset 0 < 256
    → udp_checksum_offset < length f
    → patch_udp subtract port (patch_udp add port f) ≡ f
unfolding patch_udp
patch_udp-undone port f hp hb room =
    rw
      (
        get_or-set_self f udp_checksum_offset
            (255 - apply_port add 256 (255 - get_or f udp_checksum_offset 0) port) 0 room,
        udp_undone (get_or f udp_checksum_offset 0) port hb hp,
        set-set f udp_checksum_offset
            (255 - apply_port add 256 (255 - get_or f udp_checksum_offset 0) port)
            (get_or f udp_checksum_offset 0),
      )
      (set-get_or f udp_checksum_offset 0)

-- The bytes of the BCMP checksum.
abbrev pub write_checksum : List ℕ → ℕ → List ℕ
write_checksum f w = set (set f bcmp_checksum_offset (w % 256)) (bcmp_checksum_offset + 1) (w / 256)

pub u16_at-write_checksum :
    (f : List ℕ) (w : ℕ)
    → bcmp_checksum_offset + 1 < length f
    → u16_at (write_checksum f w) bcmp_checksum_offset ≡ w
u16_at-write_checksum f w room =
    let g = set f bcmp_checksum_offset (w % 256) in
    omega (
      arith,
      length-set f bcmp_checksum_offset (w % 256),
      length-set g 57 (w / 256),
      u16_at-get_or (write_checksum f w) 56
          (omega (arith, length-set f 56 (w % 256), length-set g 57 (w / 256))),
      get_or-set_ne g 57 56 (w / 256) 0 (ground arith),
      get_or-set_self f 56 (w % 256) 0 (omega arith),
      get_or-set_self g 57 (w / 256) 0 (omega (arith, length-set f 56 (w % 256))),
    )

pub write_checksum-write_checksum :
    (f : List ℕ) (w v : ℕ) → write_checksum (write_checksum f w) v ≡ write_checksum f v
write_checksum-write_checksum f w v =
    ap (λ (g : List ℕ). set g 57 (v / 256))
      (set_comm (set f 56 (w % 256)) 57 56 (w / 256) (v % 256) (ground arith)
        ∙ ap (λ (g : List ℕ). set g 57 (w / 256)) (set-set f 56 (w % 256) (v % 256)))
    ∙ set-set (set f 56 (v % 256)) 57 (w / 256) (v / 256)

pub write_checksum_same :
    (f : List ℕ)
    → All IsByte f
    → bcmp_checksum_offset + 1 < length f
    → write_checksum f (u16_at f bcmp_checksum_offset) ≡ f
write_checksum_same f a room =
    let lo = All-get_or IsByte f 56 0 (omega arith) a in
    let w = u16_at-get_or f 56 (omega arith) in
    let e : u16_at f 56 % 256 ≡ get_or f 56 0 = omega (arith, w, lo) in
    let d : u16_at f 56 / 256 ≡ get_or f 57 0 = omega (arith, w, lo) in
    rw (e, d)
      (ap (λ (g : List ℕ). set g 57 (get_or f 57 0)) (set-get_or f 56 0) ∙ set-get_or f 57 0)

pub u16_at-IsByte :
    (f : List ℕ)
    → All IsByte f
    → bcmp_checksum_offset + 1 < length f
    → u16_at f bcmp_checksum_offset < 65536
u16_at-IsByte f a room = omega (
  arith,
  u16_at-get_or f 56 (omega arith),
  All-get_or IsByte f 56 0 (omega arith) a,
  All-get_or IsByte f 57 0 (omega arith) a,
)

pub patch_bcmp-undone :
    (port : ℕ) (f : List ℕ)
    → port < 256
    → All IsByte f
    → bcmp_checksum_offset + 1 < length f
    → patch_bcmp subtract port (patch_bcmp add port f) ≡ f
unfolding patch_bcmp
patch_bcmp-undone port f hp a room =
    let w = u16_at f bcmp_checksum_offset in
    let v = 65535 - apply_port add 65536 (65535 - w) port in
    rw
      (
        u16_at-write_checksum f v room,
        bcmp_undone w port (u16_at-IsByte f a room) hp,
        write_checksum-write_checksum f v w,
      )
      (write_checksum_same f a room)

pub patch_bcmp-set :
    (op : Patch) (port b : ℕ) (f : List ℕ)
    → bcmp_checksum_offset + 1 < length f
    → set (patch_bcmp op port f) ports_offset b ≡ patch_bcmp op port (set f ports_offset b)
unfolding patch_bcmp
patch_bcmp-set op port b f room =
    let same : u16_at (set f ports_offset b) 56 ≡ u16_at f 56 = omega (
      arith,
      u16_at-get_or f 56 (omega arith),
      u16_at-get_or (set f 24 b) 56 (omega (arith, length-set f 24 b)),
      get_or-set_ne f 24 56 b 0 (ground arith),
      get_or-set_ne f 24 57 b 0 (ground arith),
    ) in
    let v = 65535 - apply_port op 65536 (65535 - u16_at f 56) port in
    rw same (
      set_comm (set f 56 (v % 256)) 57 24 (v / 256) b (ground arith)
      ∙ ap (λ (g : List ℕ). set g 57 (v / 256)) (set_comm f 56 24 (v % 256) b (ground arith)))
