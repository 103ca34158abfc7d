-- ===== src/Bcmp/Forward/Request.antt =====
-- The port asked for in the destination address: written by the forwarder, taken out by L2.
use bristlemouth_rs.Common.{
  ℕ, zero, suc, ◌+◌, ◌-◌, ◌*◌, ◌/◌, ◌%◌, ◌^◌, ◌<◌, ◌≤◌, ◌≡◌, refl, sym, ap, ◌∙◌, true, ok, List, [],
  ◌∷◌, ◌++◌, replicate, arith, length, get_or, set, take, drop, length-take, take-append-drop,
  set-append_past, copy_at, le→ltb, ltb, leb, ◌&&◌, to_le_bytes, drop-drop, length-drop,
  length-append, ◌>>=◌,
}
use bristlemouth_rs.Addr.{link_local_multicast, multicast_mac_from_ipv6}
use bristlemouth_rs.L2.{take_requested_egress_port}
use bristlemouth_rs.Bcmp.Forward.{
  port_specific_destination, apply_port_specific_destination, take_egress_port,
}

module _ {ℓ} {A : Type ℓ} where
  get_or-append_past :
      (xs ys : List A) (n i : ℕ) (d : A)
      → length xs ≡ n
      → get_or (xs ++ ys) (n + i) d ≡ get_or ys i d
  get_or-append_past [] ys n i d e =
      let z : n + i ≡ i = omega (arith, e) in ap (λ k. get_or ys k d) z
  get_or-append_past (x ∷ xs) ys zero i d e = absurd (omega arith)
  get_or-append_past (x ∷ xs) ys (suc n) i d e =
      let z : suc n + i ≡ suc (n + i) = omega arith in
      ap (λ k. get_or (x ∷ (xs ++ ys)) k d) z ∙ get_or-append_past xs ys n i d (omega arith)

  drop-append_front : (n : ℕ) (xs ys : List A) → n ≤ length xs → drop n (xs ++ ys) ≡ drop n xs ++ ys
  drop-append_front zero xs ys h = refl
  drop-append_front (suc n) [] ys h = absurd (omega arith)
  drop-append_front (suc n) (x ∷ xs) ys h = drop-append_front n xs ys (omega arith)

-- The destination with a port in its fourteenth byte.
abbrev asking : ℕ → List ℕ
asking port = 0xFF ∷ 0x02 ∷ (replicate 11 0 ++ (port ∷ 0 ∷ 0x01 ∷ []))

port_specific_destination-asking :
    (port : ℕ) → port < 256 → port_specific_destination port ≡ asking port
unfolding port_specific_destination copy_at to_le_bytes
port_specific_destination-asking port h =
    let a : (16777216 + port * 256) % 256 ≡ 0 = omega arith in
    let b : (16777216 + port * 256) / 256 % 256 ≡ port = omega arith in
    let c : (16777216 + port * 256) / 256 / 256 % 256 ≡ 0 = omega arith in
    let d : (16777216 + port * 256) / 256 / 256 / 256 % 256 ≡ 1 = omega arith in
    rw (a, b, c, d) refl

-- The frame between its MAC and its destination, and behind the destination.
abbrev middle : List ℕ → List ℕ
middle frame = drop 6 (take 38 frame)

-- The frame with a MAC and a destination put in.
abbrev addressed : List ℕ → List ℕ → List ℕ → List ℕ
addressed frame mac dst = mac ++ (middle frame ++ (dst ++ drop 54 frame))

length-middle : (frame : List ℕ) → 54 ≤ length frame → length (middle frame) ≡ 32
length-middle frame room = omega (arith, length-drop 6 (take 38 frame), length-take 38 frame)

-- The MAC for the destination that asks for a port.
abbrev asking_mac : ℕ → List ℕ
asking_mac port = 0x33 ∷ 0x33 ∷ 0 ∷ port ∷ 0 ∷ 1 ∷ []

placed :
    (frame : List ℕ) (port : ℕ)
    → 54 ≤ length frame
    → copy_at (copy_at frame 38 (asking port)) 0 (asking_mac port)
      ≡ addressed frame (asking_mac port) (asking port)
unfolding copy_at
placed frame port room =
    ap (λ t. asking_mac port ++ t)
      (drop-append_front 6 (take 38 frame) (asking port ++ drop 54 frame)
        (omega (arith, length-take 38 frame)))

apply-addressed :
    (frame : List ℕ) (port : ℕ)
    → 54 ≤ length frame
    → port < 256
    → apply_port_specific_destination frame port
      ≡ ok (addressed frame (asking_mac port) (asking port))
unfolding apply_port_specific_destination multicast_mac_from_ipv6
apply-addressed frame port room h = rw (le→ltb (length frame) 54 room) (
    ap (λ dst. ok (copy_at (copy_at frame 38 dst) 0 (multicast_mac_from_ipv6 dst)))
      (port_specific_destination-asking port h)
    ∙ ap ok (placed frame port room))

asked :
    (frame : List ℕ) (port : ℕ)
    → 54 ≤ length frame
    → get_or (addressed frame (asking_mac port) (asking port)) 51 0 ≡ port
asked frame port room =
    get_or-append_past (middle frame) (asking port ++ drop 54 frame) 32 13 0
      (length-middle frame room)

answered :
    (frame : List ℕ) (port : ℕ)
    → 54 ≤ length frame
    → set (addressed frame (asking_mac port) (asking port)) 51 0
      ≡ addressed frame (asking_mac port) link_local_multicast
answered frame port room =
    ap (λ t. asking_mac port ++ t)
      (set-append_past (middle frame) (asking port ++ drop 54 frame) 32 13 0
        (length-middle frame room))

length-addressed :
    (frame mac dst : List ℕ)
    → 54 ≤ length frame
    → length mac ≡ 6
    → length dst ≡ 16
    → length (addressed frame mac dst) ≡ length frame
length-addressed frame mac dst room em ed = omega (
  arith,
  length-append mac (middle frame ++ (dst ++ drop 54 frame)),
  length-append (middle frame) (dst ++ drop 54 frame),
  length-append dst (drop 54 frame),
  length-middle frame room,
  length-drop 54 frame,
)

choose :
    (f g : List ℕ) (port num_ports : ℕ)
    → 54 ≤ length f
    → get_or f 51 0 ≡ port
    → set f 51 0 ≡ g
    → 1 ≤ port
    → port ≤ num_ports
    → num_ports ≤ 16
    → take_requested_egress_port f num_ports ≡ ok (2 ^ (port - 1), g)
unfolding take_requested_egress_port
choose f g port num_ports room e s lo hi few =
    let test : (ltb 0 port && leb port num_ports) ≡ true = ground arith in
    let shift : (port - 1) % 16 ≡ port - 1 = omega arith in
    rw (le→ltb (length f) 54 room, e, s, test, shift) refl

take-addressed :
    (frame : List ℕ) (port num_ports : ℕ)
    → 54 ≤ length frame
    → 1 ≤ port
    → port ≤ num_ports
    → num_ports ≤ 16
    → take_egress_port (addressed frame (asking_mac port) (asking port)) num_ports
      ≡ ok (2 ^ (port - 1), addressed frame (asking_mac port) link_local_multicast)
unfolding take_egress_port take_requested_egress_port
take-addressed frame port num_ports room lo hi few =
    choose (addressed frame (asking_mac port) (asking port)) _ port num_ports
      (omega (arith, length-addressed frame (asking_mac port) (asking port) room refl refl))
      (asked frame port room) (answered frame port room) lo hi few

-- On a device of at most 16 ports, a frame of at least 54 bytes to the link-local multicast address,
-- given the destination that asks for one of the ports, goes out on that port only, and with the plain
-- destination again: of the frame only the destination MAC is another.
pub apply-take_egress_port :
    (frame : List ℕ) (port num_ports : ℕ)
    → 54 ≤ length frame
    → take 16 (drop 38 frame) ≡ link_local_multicast
    → 1 ≤ port
    → port ≤ num_ports
    → num_ports ≤ 16
    → (apply_port_specific_destination frame port >>= λ asking_frame.
        take_egress_port asking_frame num_ports)
      ≡ ok (2 ^ (port - 1), copy_at frame 0 (0x33 ∷ 0x33 ∷ 0 ∷ port ∷ 0 ∷ 1 ∷ []))
unfolding copy_at
apply-take_egress_port frame port num_ports room plain lo hi few =
    rw (apply-addressed frame port room (omega arith)) (
      take-addressed frame port num_ports room lo hi few
      ∙ ap (λ f. ok (2 ^ (port - 1), asking_mac port ++ f)) same)
  where
    whole : drop 38 frame ≡ link_local_multicast ++ drop 54 frame
    whole = sym (
        ap (λ t. t ++ drop 54 frame) (sym plain)
        ∙ ap (λ t. take 16 (drop 38 frame) ++ t) (sym (drop-drop 16 38 frame))
        ∙ take-append-drop 16 (drop 38 frame))

    same : middle frame ++ (link_local_multicast ++ drop 54 frame) ≡ drop 6 frame
    same =
        ap (λ t. middle frame ++ t) (sym whole)
        ∙ sym (
            drop-append_front 6 (take 38 frame) (drop 38 frame)
              (omega (arith, length-take 38 frame)))
        ∙ ap (drop 6) (take-append-drop 38 frame)
