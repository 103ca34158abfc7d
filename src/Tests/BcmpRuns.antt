-- ===== src/Tests/BcmpRuns.antt =====
-- The heartbeat that the code's tests captured, in a frame, and the frame with a byte changed.
use bristlemouth_rs.Common.{
  ℕ, ◌≡◌, ◌≢◌, ◌⊎◌, refl, List, [], ◌∷◌, ◌++◌, some, err, ok, set, replicate, u16_at, from_le_bytes,
}
use bristlemouth_rs.Bcmp.{checksum_offset, RxError, bad_checksum, payload_len, clear_source, accept}
use bristlemouth_rs.Bcmp.Fields.{IsBcmpFrame, spec_checksum, without_checksum, message_of}
use bristlemouth_rs.Bcmp.Receive.{accept_cases}
use bristlemouth_rs.Tests.ChecksumRuns.{src_node, all_nodes}
use bristlemouth_rs.Tests.L2Runs.{all_bytes, all_bytes_sound}

abbrev pub heartbeat_frame : List ℕ
heartbeat_frame =
    replicate 12 0
    ++ (0x86
        ∷ 0xdd
        ∷ 0x60
        ∷ 0
        ∷ 0
        ∷ 0
        ∷ 0
        ∷ 25
        ∷ 0xbc
        ∷ 255
        ∷ (src_node
            ++ (all_nodes
                ++ (0x01
                    ∷ 0
                    ∷ 0x0c
                    ∷ 0x3f
                    ∷ (replicate 9 0
                        ++ (0x30 ∷ 0x7c ∷ 0x71 ∷ 0x22 ∷ 0 ∷ 0 ∷ 0 ∷ 0 ∷ 0x0a ∷ 0 ∷ 0 ∷ 0 ∷ []))))))

-- As it comes in through port 3.
abbrev arriving : List ℕ
arriving = set heartbeat_frame 24 0x30

accepted : accept arriving ≡ (some (ok (message_of arriving)), heartbeat_frame)
unfolding accept message_of u16_at from_le_bytes
accepted = refl

corrupted :
    accept (set arriving 70 9) ≡ (some (err bad_checksum), without_checksum (set arriving 70 9))
unfolding accept without_checksum u16_at from_le_bytes
corrupted = refl

accept_cases_example :
    ((e : RxError) × (e ≢ bad_checksum)
      × ¬ IsBcmpFrame arriving
      × (accept arriving ≡ (some (err e), arriving)))
    ⊎ (IsBcmpFrame arriving
        × (u16_at (clear_source arriving) checksum_offset
            ≢ spec_checksum (payload_len arriving) (without_checksum arriving))
        × (accept arriving ≡ (some (err bad_checksum), without_checksum arriving)))
    ⊎ (IsBcmpFrame arriving
        × (u16_at (clear_source arriving) checksum_offset
            ≡ spec_checksum (payload_len arriving) (without_checksum arriving))
        × (accept arriving ≡ (some (ok (message_of arriving)), clear_source arriving)))
unfolding all_bytes
accept_cases_example = accept_cases arriving (all_bytes_sound arriving refl)
