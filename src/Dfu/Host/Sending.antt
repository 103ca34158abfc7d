-- ===== src/Dfu/Host/Sending.antt =====
-- The chunks that the host sends, and that the client reads back what was sent.
use Prim.Native.Nat.{min}
use bristlemouth_rs.Common.{
  ℕ, ◌+◌, ◌-◌, ◌^◌, ◌≤◌, ◌<◌, ◌≡◌, ◌≢◌, refl, sym, subst, ap, ◌∙◌, Bool, true, false, Option, none,
  some, List, arith, le→ltb, if◌then◌else◌, length, take, drop, replicate, length-replicate,
  to_le_bytes, from_le_bytes, from_le_bytes-to_le_bytes, u16_at, take_past,
}
use mathlib.Core.Path.{ap₂}
use bristlemouth_rs.Dfu.Message.{
  DfuAddress, payload, encode_bytes, encode_address, encode_tail, addresses,
}
use bristlemouth_rs.Dfu.Machine.{Dfu, Effects}
use bristlemouth_rs.Dfu.Client.Receiving.{chunk_of}
use bristlemouth_rs.Dfu.Stream.{StreamBuffer, receive}
use bristlemouth_rs.Dfu.Stream.Fifo.{IsStream, waiting, receive-some}
use bristlemouth_rs.Dfu.Host.{
  Host, img_info_len, chunk_len, chunk_offset, to_client, read_stream, send_read, send_own,
  send_streamed, send_chunk,
}

-- A chunk of at most 1024 bytes that is sent is the chunk that the client takes from the message.
pub chunk_of-encode_bytes :
    (a : DfuAddress) (bytes : List ℕ)
    → length bytes ≤ 1024
    → chunk_of (encode_bytes (payload (record { addresses = a; payload = bytes }))) ≡ some bytes
unfolding chunk_of encode_bytes encode_address encode_tail addresses to_le_bytes u16_at
    from_le_bytes
chunk_of-encode_bytes a bytes h =
    let e : from_le_bytes (to_le_bytes 2 (length bytes)) ≡ length bytes =
      from_le_bytes-to_le_bytes 2 (length bytes) (omega arith) in
    rw (e, le→ltb 1024 (length bytes) h, take_past (length bytes) bytes (omega arith))
      (ground arith)

abbrev pub zeros : ℕ → List ℕ
zeros n = replicate n 0

-- What is relied on of `host_get_chunk`: where it says that it has read, the buffer holds the bytes
-- of the slot from the offset on.
pub record ReadsSlot {F : Type 0} (fx : Effects F) (slot : F → List ℕ) : Type 0 where
  pub read :
      (offset : ℕ) (buf : List ℕ) (f : F)
      → (fx.host_get_chunk offset buf f).2 ≡ true
      → (fx.host_get_chunk offset buf f).1 ≡ take (length buf) (drop offset (slot f))

read_stream-some :
    (h : Host) (s : StreamBuffer) (buf : List ℕ)
    → h.stream ≡ some s
    → read_stream h buf
      ≡ (record h { stream = some (receive s buf).0 }, (receive s buf).1, (receive s buf).2)
unfolding read_stream
read_stream-some h s buf e =
    ap
      (λ (o : Option StreamBuffer). elim o as (λ _. Host × List ℕ × Option ℕ) [
        | none ↦ (h, buf, none)
        | some s ↦
            (record h { stream = some (receive s buf).0 }, (receive s buf).1, (receive s buf).2)
      ])
      e

module _ {F : Type 0} (fx : Effects F) where
  -- Where the image is read from the node's own slot, and the read succeeds: the chunk sent is the part
  -- of the image behind what was sent before, as long as the next chunk is to be, and no longer
  -- remains. The image starts behind its header, and its end must be below 2 ^ 32.
  pub send_own_chunk :
      (slot : F → List ℕ)
      → ReadsSlot fx slot
      → (d : Dfu Host F) → d.core.internal ≡ true
      → d.roles.bytes_remaining ≤ d.roles.img_info.image_size
      → img_info_len + d.roles.img_info.image_size < 2 ^ 32
      → (fx.host_get_chunk (chunk_offset fx d.roles) (zeros (chunk_len fx d.roles)) d.effects).2
        ≡ true
      → let k = chunk_len fx d.roles in
        let own = fx.host_get_chunk (chunk_offset fx d.roles) (zeros k) d.effects in
        ((send_chunk fx d).effects
          ≡ fx.send
              (payload (record {
                addresses = to_client fx d;
                payload = take k (
                    drop
                      (img_info_len + (d.roles.img_info.image_size - d.roles.bytes_remaining))
                      (slot d.effects));
              }))
              own.0)
        × ((send_chunk fx d).roles.bytes_remaining + k ≡ d.roles.bytes_remaining)
        × ((send_chunk fx d).core ≡ d.core)
  unfolding send_chunk send_own send_read
  send_own_chunk slot law d internal within fits done =
      subst
        (λ (r : Dfu Host F).
          (r.effects
            ≡ fx.send
                (payload (record {
                  addresses = to_client fx d;
                  payload = take k (
                      drop (img_info_len + (d.roles.img_info.image_size - d.roles.bytes_remaining))
                        (slot d.effects));
                }))
                own.0)
          × (r.roles.bytes_remaining + k ≡ d.roles.bytes_remaining)
          × (r.core ≡ d.core))
        (sym sends)
        (
          (λ i. fx.send (payload (record { addresses = to_client fx d; payload = bytes i })) own.0),
          omega (arith, length-replicate {A = ℕ} k 0),
          refl,
        )
    where
      k : ℕ
      k = chunk_len fx d.roles

      own : F × List ℕ × Bool
      own = fx.host_get_chunk (chunk_offset fx d.roles) (zeros k) d.effects

      sends :
          send_chunk fx d
          ≡ send_read fx (record d { effects = own.0 }) own.1 (some (length (zeros k)))
      sends =
          ap
            (λ b.
              if b
              then send_own fx d (chunk_offset fx d.roles) (zeros k)
              else send_streamed fx d (zeros k))
            internal
          ∙ ap
              (λ b.
                send_read fx (record d { effects = own.0 }) own.1
                  (if b then some (length (zeros k)) else none))
              done

      offset :
          chunk_offset fx d.roles
          ≡ img_info_len + (d.roles.img_info.image_size - d.roles.bytes_remaining)
      offset = omega arith

      bytes :
          (fx.host_get_chunk (chunk_offset fx d.roles) (zeros k) d.effects).1
          ≡ take k (
              drop
                (img_info_len + (d.roles.img_info.image_size - d.roles.bytes_remaining))
                (slot d.effects))
      bytes =
          law.read (chunk_offset fx d.roles) (zeros k) d.effects done
          ∙ ap₂ (λ n o. take n (drop o (slot d.effects))) (length-replicate {A = ℕ} k 0) offset

  -- Where the image comes through a well-formed stream that is not empty: the chunk sent has the bytes
  -- that wait in the stream at its front, as many as it can take or as wait; they leave the stream and
  -- no longer remain, and they are not more than what remains.
  pub send_streamed_chunk :
      (d : Dfu Host F) (s : StreamBuffer)
      → d.core.internal ≡ false
      → d.roles.stream ≡ some s
      → IsStream s
      → s.count ≢ 0
      → let k = chunk_len fx d.roles in
        let r = receive s (zeros k) in
        ((send_chunk fx d).effects
          ≡ fx.send (payload (record { addresses = to_client fx d; payload = r.1 })) d.effects)
        × ((send_chunk fx d).roles.stream ≡ some r.0)
        × (take (min s.count k) r.1 ≡ take k (waiting s))
        × (waiting r.0 ≡ drop k (waiting s))
        × ((send_chunk fx d).roles.bytes_remaining + min s.count k ≡ d.roles.bytes_remaining)
        × ((send_chunk fx d).core ≡ d.core)
  unfolding send_chunk send_streamed send_read
  send_streamed_chunk d s fed held v some_bytes =
      let (read, front, left) = receive-some s (zeros k) some_bytes in
      subst
        (λ (r : Dfu Host F).
          (r.effects
            ≡ fx.send
                (payload (record { addresses = to_client fx d; payload = (receive s (zeros k)).1 }))
                d.effects)
          × (r.roles.stream ≡ some (receive s (zeros k)).0)
          × (take (min s.count k) (receive s (zeros k)).1 ≡ take k (waiting s))
          × (waiting (receive s (zeros k)).0 ≡ drop k (waiting s))
          × (r.roles.bytes_remaining + min s.count k ≡ d.roles.bytes_remaining)
          × (r.core ≡ d.core))
        (sym (sends read))
        (
          refl,
          refl,
          ap (λ n. take (min s.count n) (receive s (zeros k)).1) (sym same)
              ∙ front
              ∙ ap (λ n. take n (waiting s)) same,
          left ∙ ap (λ n. drop n (waiting s)) same,
          omega (arith, same),
          refl,
        )
    where
      k : ℕ
      k = chunk_len fx d.roles

      same : length (zeros k) ≡ k
      same = length-replicate {A = ℕ} k 0

      sends :
          (receive s (zeros k)).2 ≡ some (min s.count (length (zeros k)))
          → send_chunk fx d
            ≡ send_read fx
                (record d { roles = record (d.roles) { stream = some (receive s (zeros k)).0 } })
                (receive s (zeros k)).1
                (some (min s.count (length (zeros k))))
      sends read =
          ap
            (λ b.
              if b
              then send_own fx d (chunk_offset fx d.roles) (zeros k)
              else send_streamed fx d (zeros k))
            fed
          ∙ ap (λ (o : Host × List ℕ × Option ℕ). send_read fx (record d { roles = o.0 }) o.1 o.2)
              (read_stream-some d.roles s (zeros k) held)
          ∙ ap
              (λ o.
                send_read fx
                  (record d { roles = record (d.roles) { stream = some (receive s (zeros k)).0 } })
                  (receive s (zeros k)).1 o)
              read
