-- ===== src/Tests/DfuRuns.antt =====
-- The codecs, the event queue and the timers of the DFU on concrete values.
use bristlemouth_rs.Common.{
  ℕ, ◌<◌, ◌≡◌, refl, ◌⊎◌, arith, true, false, none, some, List, [], ◌∷◌, ◌++◌, length, drop,
  replicate, ok, err, truncated,
}
use bristlemouth_rs.Dfu.Message.{DfuMessage, payload, encoded_len, encode, decode}
use bristlemouth_rs.Dfu.Message.RoundTrip.{Fits, decode-encode}
use bristlemouth_rs.Dfu.Event.{
  Event, bare, chunk_timer, nop, init_success, none_event, err_none, init,
}
use bristlemouth_rs.Dfu.Event.Reboot.{RebootInfo, dfu_reboot_magic, no_reboot_info}
use bristlemouth_rs.Dfu.Queue.{EventQueue, push, pop, iter}
use bristlemouth_rs.Dfu.Queue.Fifo.{IsRing, iter-push, iter-pop}
use bristlemouth_rs.Dfu.Core.{Core, fire_due}
use bristlemouth_rs.Dfu.Core.Timers.{due, fire_due-done}

abbrev chunk : DfuMessage
chunk = payload (record {
  addresses = record { src_node_id = 0x0102030405060708; dst_node_id = 9 };
  payload = 0xaa ∷ 0xbb ∷ [];
})

abbrev buffer : List ℕ
buffer = replicate 24 7

chunk-Fits : Fits chunk
chunk-Fits = (record { src = omega arith; dst = omega arith }, omega arith)

decode-encode_example :
    ((length buffer < encoded_len chunk) × (encode chunk buffer ≡ err truncated))
    ⊎ ((out : List ℕ) × (encode chunk buffer ≡ ok (encoded_len chunk, out))
        × (decode out ≡ ok chunk)
        × (length out ≡ length buffer)
        × (drop (encoded_len chunk) out ≡ drop (encoded_len chunk) buffer))
decode-encode_example = decode-encode chunk buffer chunk-Fits

abbrev left_behind : RebootInfo
left_behind = record {
  magic = dfu_reboot_magic;
  major = 1;
  minor = 2;
  host_node_id = 77;
  git_sha = 0xdeadbeef;
}

-- A ring whose one event stands in the last slot.
abbrev wrapped : EventQueue
wrapped = record {
  slots = none_event ∷ none_event ∷ none_event ∷ none_event ∷ bare nop ∷ [];
  head = 4;
  len = 1;
}

wrapped-IsRing : IsRing wrapped
wrapped-IsRing = record { five = refl; head_in = omega arith; len_in = omega arith }

iter-push_example :
    ((wrapped.len ≡ 5) × (push wrapped (bare init_success) ≡ (wrapped, false)))
    ⊎ ((wrapped.len < 5)
        × ((push wrapped (bare init_success)).1 ≡ true)
        × (iter (push wrapped (bare init_success)).0 ≡ iter wrapped ++ (bare init_success ∷ [])))
iter-push_example = iter-push wrapped (bare init_success) wrapped-IsRing

-- A core whose clock has wrapped past the deadlines of two timers.
abbrev late : Core
late = record {
  state = init;
  current = none_event;
  pending = none;
  error = err_none;
  self_node_id = 7;
  client_node_id = 0;
  notify = false;
  internal = false;
  queue = wrapped;
  reboot_info = no_reboot_info;
  clock = some 5;
  timers = record { at_chunk = some 3; at_ack = some 4294967290; at_update = some 900 };
  periods = record { at_chunk = 2000; at_ack = 10000; at_update = 5000 };
}

fire_due-done_example : due (fire_due late) chunk_timer ≡ false
fire_due-done_example = fire_due-done late chunk_timer

iter-pop_example :
    ((iter wrapped ≡ []) × (pop wrapped ≡ (wrapped, none)))
    ⊎ ((e : Event) × ((pop wrapped).1 ≡ some e) × (iter wrapped ≡ e ∷ iter (pop wrapped).0))
iter-pop_example = iter-pop wrapped wrapped-IsRing
