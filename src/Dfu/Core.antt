-- ===== src/Dfu/Core.antt =====
-- `Core` of bm-wire/src/bcmp/dfu_core.rs: the context of the state machine, its queue, its clock and
-- its timers.
pub mod Timers
use bristlemouth_rs.Common.{
  ℕ, zero, suc, ◌+◌, ◌%◌, ◌^◌, ◌<◌, Bool, true, false, not, ◌&&◌, Option, none, some, List, [], ◌∷◌,
  ltb, ◌==◌, if◌then◌else◌,
}
use bristlemouth_rs.Util.Time.{u32_mod, wrapping_sub}
use bristlemouth_rs.Dfu.Message.{DfuAddress, DfuMessage, ack, update_end, payload_req, heartbeat}
use bristlemouth_rs.Dfu.Event.{
  State, Timer, chunk_timer, ack_timer, update_timer, all_timers, timer_event, Event, bare,
  none_event,
}
use bristlemouth_rs.Dfu.Event.Reboot.{RebootInfo}
use bristlemouth_rs.Dfu.Queue.{EventQueue, push}

-- An array with an element for each timer.
pub record PerTimer (A : Type 0) : Type 0 where
  pub at_chunk : A
  pub at_ack : A
  pub at_update : A

unfoldable pub of_timer : {A : Type 0} → PerTimer A → Timer → A
of_timer a chunk_timer = a.at_chunk
of_timer a ack_timer = a.at_ack
of_timer a update_timer = a.at_update

unfoldable pub set_timer : {A : Type 0} → PerTimer A → Timer → A → PerTimer A
set_timer a chunk_timer v = record a { at_chunk = v }
set_timer a ack_timer v = record a { at_ack = v }
set_timer a update_timer v = record a { at_update = v }

pub record Core : Type 0 where
  pub state : State
  pub current : Event
  pub pending : Option State
  pub error : ℕ
  pub self_node_id : ℕ
  pub client_node_id : ℕ
  pub notify : Bool
  pub internal : Bool
  pub queue : EventQueue
  pub reboot_info : RebootInfo
  pub clock : Option ℕ
  pub timers : PerTimer (Option ℕ)
  pub periods : PerTimer ℕ

-- A failed `push` is ignored.
unfoldable pub post : Core → Event → Core × Bool
post c e = let (q, sent) = push c.queue e in (record c { queue = q }, sent)

unfoldable pub set_pending_state_change : Core → State → Core
set_pending_state_change c s = record c { pending = some s; queue = (push c.queue none_event).0 }

unfoldable pub set_error : Core → ℕ → Core
set_error c e = record c { error = e }

unfoldable pub now : Core → ℕ
now c = elim c.clock [ none ↦ 0 | some t ↦ t ]

unfoldable pub start_timer : Core → Timer → Core
unfolding of_timer set_timer now
start_timer c t = record c {
  timers = set_timer c.timers t (some ((now c + of_timer c.periods t) % u32_mod));
}

unfoldable pub change_period : Core → Timer → ℕ → Core
unfolding start_timer
change_period c t ms = start_timer (record c { periods = set_timer c.periods t ms }) t

unfoldable pub stop_timer : Core → Timer → Core
unfolding set_timer
stop_timer c t = record c { timers = set_timer c.timers t none }

unfoldable pub timer_deadline : Core → Timer → Option ℕ
unfolding of_timer
timer_deadline c t = of_timer c.timers t

-- `(now - deadline) as i32 >= 0`.
unfoldable pub is_due : ℕ → Option ℕ → Bool
unfolding wrapping_sub
is_due t none = false
is_due t (some d) = ltb (wrapping_sub t d) (2 ^ 31)

-- The key `deadline - now` as an `i32`, moved up by 2 ^ 31 so that its order is that of numbers.
unfoldable pub signed_key : ℕ → Option ℕ → ℕ
unfolding wrapping_sub
signed_key t none = 0
signed_key t (some d) = (wrapping_sub d t + 2 ^ 31) % u32_mod

-- `filter`.
unfoldable pub keep_due : ℕ → PerTimer (Option ℕ) → List Timer → List Timer
unfolding is_due of_timer
keep_due t a [] = []
keep_due t a (x ∷ xs) = if is_due t (of_timer a x) then x ∷ keep_due t a xs else keep_due t a xs

-- `min_by_key`: the first of the least.
unfoldable pub min_from : (Timer → ℕ) → Timer → List Timer → Timer
min_from key best [] = best
min_from key best (x ∷ xs) = min_from key (if ltb (key x) (key best) then x else best) xs

unfoldable pub min_by_key : (Timer → ℕ) → List Timer → Option Timer
unfolding min_from
min_by_key key [] = none
min_by_key key (x ∷ xs) = some (min_from key x xs)

-- The timer that fires next.
unfoldable pub next_due : Core → Option Timer
unfolding keep_due min_by_key signed_key of_timer now
next_due c =
    min_by_key (λ x. signed_key (now c) (of_timer c.timers x))
      (keep_due (now c) c.timers all_timers)

-- One round of the loop of `fire_due`.
unfoldable pub fire : Core → Timer → Core
unfolding set_timer timer_event
fire c t = record c {
  timers = set_timer c.timers t none;
  queue = (push c.queue (bare (timer_event t))).0;
}

unfoldable pub fire_loop : ℕ → Core → Core
fire_loop zero c = c
fire_loop (suc fuel) c = elim (next_due c) [ none ↦ c | some t ↦ fire_loop fuel (fire c t) ]

-- Each round stops a timer, so that three are enough.
unfoldable pub fire_due : Core → Core
fire_due c = fire_loop 3 c

unfoldable pub delay : Core → ℕ → Core
unfolding now
delay c ms = fire_due (record c { clock = some ((now c + ms) % u32_mod) })

-- The clock is past `now_ms`: `(now_ms - clock) as i32 < 0`.
unfoldable pub is_ahead : Option ℕ → ℕ → Bool
unfolding wrapping_sub
is_ahead none now_ms = false
is_ahead (some t) now_ms = not (ltb (wrapping_sub now_ms t) (2 ^ 31))

unfoldable pub advance_to : Core → ℕ → Core
unfolding is_ahead
advance_to c now_ms =
    fire_due (if is_ahead c.clock now_ms then c else record c { clock = some now_ms })

unfoldable pub address_to : Core → ℕ → DfuAddress
address_to c dst = record { src_node_id = c.self_node_id; dst_node_id = dst }

-- What the four senders hand to `Effects::send`.
unfoldable pub ack_message : Core → ℕ → ℕ → ℕ → DfuMessage
unfolding address_to
ack_message c dst success e =
    ack (record { addresses = address_to c dst; success = success; err_code = e })

unfoldable pub next_chunk_message : Core → ℕ → ℕ → DfuMessage
unfolding address_to
next_chunk_message c dst chunk_num =
    payload_req (record { addresses = address_to c dst; seq_num = chunk_num })

unfoldable pub update_end_message : Core → ℕ → ℕ → ℕ → DfuMessage
unfolding address_to
update_end_message c dst success e =
    update_end (record { addresses = address_to c dst; success = success; err_code = e })

unfoldable pub heartbeat_message : Core → ℕ → DfuMessage
unfolding address_to
heartbeat_message c dst = heartbeat (address_to c dst)
