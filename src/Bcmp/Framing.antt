-- ===== src/Bcmp/Framing.antt =====
-- The frame that a node builds: the headers before a message, and the message's checksum put in.
use bristlemouth_rs.Common.{
  ℕ, ◌/◌, ◌%◌, ◌<◌, ◌≡◌, sym, ap, ◌∙◌, List, [], ◌∷◌, ◌++◌, arith, length, set, take, drop, All,
  All-set, IsByte, length-set, length-append, append_assoc,
}
use bristlemouth_rs.Checksum.{ipv6_pseudo_checksum, swap_bytes}
use bristlemouth_rs.Addr.{to_be_bytes, nodeid_to_ip, link_local_prefix}
use bristlemouth_rs.Bcmp.{bcmp_header_len, header_of, Received, put_checksum, checksum_calc}

pub swap_bytes-below : (x : ℕ) → x < 65536 → swap_bytes x < 65536
unfolding swap_bytes
swap_bytes-below x h = omega arith

pub checksum_calc-below : (len : ℕ) (f : List ℕ) → checksum_calc len f < 65536
unfolding checksum_calc ipv6_pseudo_checksum
checksum_calc-below len f = swap_bytes-below _ (omega arith)

-- The headers that a node writes, for any two MACs, and what follows them.
unfoldable pub framed : List ℕ → ℕ → ℕ → List ℕ → List ℕ → List ℕ
unfolding to_be_bytes nodeid_to_ip
framed macs len id dst rest =
    macs
    ++ (0x86
        ∷ 0xDD
        ∷ 0x60
        ∷ 0
        ∷ 0
        ∷ 0
        ∷ (to_be_bytes 2 len
            ++ (0xBC ∷ 255 ∷ (nodeid_to_ip link_local_prefix id ++ (dst ++ rest)))))

-- What a node says in a message to `dst`.
abbrev pub said_by : ℕ → List ℕ → List ℕ → Received
said_by id dst message = record {
  header = header_of (take bcmp_header_len message);
  body = drop bcmp_header_len message;
  src = nodeid_to_ip link_local_prefix id;
  dst = dst;
  ingress_port = 0;
}

pub length-put : (f : List ℕ) (c : ℕ) → length (put_checksum f c) ≡ length f
unfolding put_checksum
length-put f c = length-set (set f 56 (c % 256)) 57 (c / 256) ∙ length-set f 56 (c % 256)

pub put-bytes : (f : List ℕ) (c : ℕ) → c < 65536 → All IsByte f → All IsByte (put_checksum f c)
unfolding put_checksum
put-bytes f c h a =
    All-set IsByte (set f 56 (c % 256)) 57 (c / 256) (omega arith)
      (All-set IsByte f 56 (c % 256) (omega arith) a)

pub framed_split :
    (macs : List ℕ) (len id : ℕ) (dst r : List ℕ)
    → framed macs len id dst r ≡ framed macs len id dst [] ++ r
unfolding framed
framed_split macs len id dst r =
    sym (append_assoc macs _ r ∙ ap (λ t. framed macs len id [] t) (append_assoc dst [] r))

pub length-framed :
    (macs : List ℕ) (len id : ℕ) (dst : List ℕ)
    → length macs ≡ 12
    → length dst ≡ 16
    → length (framed macs len id dst []) ≡ 54
unfolding framed
length-framed macs len id dst em ed = omega (arith, length-append macs _, length-append dst [])
