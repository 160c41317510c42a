-- ===== src/Kernel/Write/Framing.antt =====
-- What goes over the bus: with a driver that records what it is given, the loop of `write_ioctl`
-- sends the user's bytes in order, and END with the last of them alone.
use linux_gpib.Prelude.{
  ℕ, zero, suc, ◌+◌, ◌≤◌, ◌<◌, ◌≡◌, refl, sym, ap, ◌∙◌, Bool, true, false, ◌&&◌, arith, ℤ, pos,
  is_neg, Option, none, some, List, [], ◌∷◌, ◌++◌, ltb, leb, ◌==◌, min, length, take, drop,
  length-take, length-drop, length-append, take-append-drop, append-nil, append_assoc, Bool-cases,
  inl, inr, drop-drop, nil_of_length, ◌≢◌, has, has-without,
}
use linux_gpib.Uapi.Status.{cic, timo}
use linux_gpib.Kernel.Types.{Board, Interface}
use linux_gpib.Kernel.Timer.{os_start_timer, os_remove_timer, io_timed_out}
use linux_gpib.Kernel.Ibstatus.{ibstatus}
use linux_gpib.Kernel.Ibstatus.Bits.{ibstatus-has, ibstatus-board}
use linux_gpib.Kernel.Control.{ibgts}
use linux_gpib.Kernel.Write.{Sending, write_timed, ibwrt, write_chunk, write_loop}

-- The calls of the driver's `write`, oldest first: the bytes, and whether END goes with the last.
abbrev pub Log : Type 0
Log = List (List ℕ × Bool)

abbrev pub sent_bytes : Log → List ℕ
sent_bytes [] = []
sent_bytes ((buf, eoi) ∷ log) = buf ++ sent_bytes log

-- END goes with the last call if `end` says so, and with no other.
abbrev pub IsFramed : Bool → Log → Type 0
IsFramed end [] = Unit {0}
IsFramed end ((buf, eoi) ∷ []) = eoi ≡ end
IsFramed end ((buf, eoi) ∷ call ∷ log) = (eoi ≡ false) × IsFramed end (call ∷ log)

abbrev log_of : Option Log → Log
log_of none = []
log_of (some log) = log

-- A driver that sends whatever it is given, is controller in charge, and keeps a log.
abbrev pub recorder : Interface Log
recorder = record {
  attach = λ b. (pos 0, b);
  detach = λ b. b;
  read = λ b n. (pos 0, true, [], b);
  write = λ b buf eoi. (
    pos 0,
    length buf,
    record b { private_data = some (log_of b.private_data ++ (buf, eoi) ∷ []) },
  );
  command = λ b buf. (pos 0, length buf, b);
  take_control = λ b sync. (pos 0, b);
  go_to_standby = λ b. (pos 0, b);
  request_system_control = none;
  interface_clear = λ b assert. b;
  remote_enable = λ b enable. b;
  enable_eos = λ b eos eight_bits. (pos 0, b);
  disable_eos = λ b. b;
  parallel_poll_configure = λ b config. b;
  parallel_poll = λ b. (pos 0, 0, b);
  parallel_poll_response = λ b ist. b;
  local_parallel_poll_mode = none;
  line_status = none;
  update_status = λ b mask. (0x20, b);
  primary_address = λ b address. (pos 0, b);
  secondary_address = λ b address enable. (pos 0, b);
  serial_poll_response = none;
  serial_poll_response2 = none;
  serial_poll_status = λ b. 0;
  t1_delay = none;
  no_7_bit_eos = false;
  skip_check_for_command_acceptors = true;
}

ibgts-recorder :
    (board : Board Log) (log : Log)
    → board.private_data ≡ some log
    → ibgts recorder board ≡ (pos 0, board)
unfolding ibgts has
ibgts-recorder board log e =
    let control : has (ibstatus recorder board).0 cic ≡ true =
      ibstatus-has recorder board log cic e refl refl refl in
    ground (arith, control, ibstatus-board recorder board log e)

-- What one call of `ibwrt` does to a board with no timer running.
record Wrote (board : Board Log) (log : Log) (buf : List ℕ) (eoi : Bool) (r : ℤ × ℕ × Board Log)
    : Type 0 where
  done : r.0 ≡ pos 0
  count : r.1 ≡ length buf
  logged : r.2.private_data ≡ some (log ++ (buf, eoi) ∷ [])
  idle : r.2.timer_pending ≡ false
  buffer : r.2.buffer_length ≡ board.buffer_length

write_timed-Wrote :
    (board : Board Log) (log : Log) (buf : List ℕ) (eoi : Bool)
    → board.private_data ≡ some log
    → board.timer_pending ≡ false
    → Wrote board log buf eoi (write_timed recorder board buf eoi)
unfolding write_timed os_start_timer os_remove_timer io_timed_out
write_timed-Wrote board log buf eoi e idle = ground (arith, has-without board.status timo timo)

ibwrt-Wrote :
    (board : Board Log) (log : Log) (buf : List ℕ) (eoi : Bool)
    → board.private_data ≡ some log
    → board.timer_pending ≡ false
    → 0 < length buf
    → Wrote board log buf eoi (ibwrt recorder board buf eoi)
unfolding ibwrt
ibwrt-Wrote board log buf eoi e idle h = elim (Bool-cases board.master) [
  | inr slave ↦ simp (nonempty, slave) (write_timed-Wrote board log buf eoi e idle)
  | inl master ↦
      simp (nonempty, master, ibgts-recorder board log e)
        (write_timed-Wrote board log buf eoi e idle)
]
  where
    nonempty : (length buf == 0) ≡ false
    nonempty = ground arith

IsFramed-cons :
    (buf : List ℕ) (eoi end : Bool) (log : Log)
    → (log ≡ [] → eoi ≡ end)
    → (log ≢ [] → eoi ≡ false)
    → IsFramed end log
    → IsFramed end ((buf, eoi) ∷ log)
IsFramed-cons buf eoi end [] last more framed = last refl
IsFramed-cons buf eoi end (call ∷ log) last more framed = (more (λ e. cc), framed)

-- What the loop of `write_ioctl` adds to a log, started with the bytes from `from` on to send.
pub record IsSent (log : Log) (from : List ℕ) (end : Bool) (s' : Sending Log) : Type 0 where
  pub added : Log
  pub logged : s'.board.private_data ≡ some (log ++ added)
  pub bytes : sent_bytes added ≡ from
  pub framed : IsFramed end added
  pub finished : (s'.remain ≡ 0) × (s'.retval ≡ pos 0)
  pub none_left : from ≡ [] → added ≡ []
  pub idle : s'.board.timer_pending ≡ false
  pub room : 0 < s'.board.buffer_length
  pub no_fault : s'.fault ≡ false

-- One more call in front: `buf` is the start of what is to send, `from'` what is left then.
cons-IsSent :
    (log : Log) (buf : List ℕ) (eoi end : Bool) (from from' : List ℕ) (s' : Sending Log)
    → buf ++ from' ≡ from
    → 0 < length buf
    → (from' ≡ [] → eoi ≡ end)
    → (from' ≢ [] → eoi ≡ false)
    → IsSent (log ++ (buf, eoi) ∷ []) from' end s'
    → IsSent log from end s'
cons-IsSent log buf eoi end from from' s' e full last more i = record {
  added = (buf, eoi) ∷ i.added;
  logged = i.logged ∙ ap some (append_assoc log ((buf, eoi) ∷ []) i.added);
  bytes = ap (buf ++◌) i.bytes ∙ e;
  framed =
      IsFramed-cons buf eoi end i.added (λ nil. last (sym i.bytes ∙ ap sent_bytes nil))
        (λ calls. more (λ nil. calls (i.none_left nil))) i.framed;
  finished = i.finished;
  none_left = λ nil. absurd (omega (arith, length-append buf from', ap length (e ∙ nil), full));
  idle = i.idle;
  room = i.room;
  no_fault = i.no_fault;
}

last_end : (remain room : ℕ) (end : Bool) → remain ≤ room → (leb remain room && end) ≡ end
last_end remain room end h = ground arith

more_end : (remain room : ℕ) (end : Bool) → room < remain → (leb remain room && end) ≡ false
more_end remain room end h = ground arith

-- The loop of `write_ioctl`, with fuel for the bytes left, memory that can be read, and a board
-- that has a buffer and no timer running, gives the recording driver the rest of the user's bytes
-- in order, in calls of which the last one alone sends END, and that one exactly if it was asked
-- for.
pub write_loop-IsSent :
    (fuel : ℕ) (user_bytes : List ℕ) (end : Bool) (s : Sending Log) (log : Log)
    → s.remain < fuel
    → 0 < s.board.buffer_length
    → s.board.timer_pending ≡ false
    → s.board.private_data ≡ some log
    → s.remain + s.sent ≡ length user_bytes
    → s.retval ≡ pos 0
    → s.fault ≡ false
    → (s' : Sending Log) × (write_loop recorder fuel (λ _. true) user_bytes end s ≡ some s')
      × IsSent log (drop s.sent user_bytes) end s'
unfolding write_loop write_chunk
write_loop-IsSent zero user_bytes end s log h room idle e all ok no_fault = absurd (omega arith)
write_loop-IsSent (suc fuel) user_bytes end s log h room idle e all ok no_fault =
    let rest = drop s.sent user_bytes in
    let n = min s.board.buffer_length s.remain in
    let eoi = leb s.remain s.board.buffer_length && end in
    let left : length rest ≡ s.remain = omega (arith, length-drop s.sent user_bytes) in
    let chunk = take n rest in
    let size : length chunk ≡ n = omega (arith, length-take n rest, left) in
    elim (Bool-cases (ltb 0 s.remain)) [
      | inr stop ↦ (
        s,
        simp stop,
        record {
          added = [];
          logged = rw append-nil e;
          bytes = sym (nil_of_length rest (ground (arith, left, stop)));
          framed = tt;
          finished = (ground (arith, stop), ok);
          none_left = λ _. refl;
          idle = idle;
          room = room;
          no_fault = no_fault;
        },
      )
      | inl go ↦
          let w = ibwrt-Wrote s.board log chunk eoi e idle (ground (arith, go, size)) in
          let s1 = write_chunk recorder user_bytes end s in
          let (s', same, i) =
            write_loop-IsSent fuel user_bytes end s1 (log ++ (chunk, eoi) ∷ [])
              (ground (arith, w.count, size, go)) (rw w.buffer room) w.idle w.logged
              (omega (arith, w.count, size)) w.done no_fault in
          let fine : is_neg s1.retval ≡ false = rw w.done refl in
          let count : s1.sent ≡ s.sent + n = ap (s.sent +◌) (w.count ∙ size) in
          let moved : drop s1.sent user_bytes ≡ drop n rest =
            ap (λ k. drop k user_bytes) count ∙ sym (drop-drop s.sent n user_bytes) in
          let left1 = length-drop s1.sent user_bytes in
          (
            s',
            simp (go, fine) same,
            cons-IsSent log chunk eoi end rest (drop s1.sent user_bytes) s'
                (ap (chunk ++◌) moved ∙ take-append-drop n rest) (ground (arith, go, size))
                (λ nil.
                  last_end s.remain s.board.buffer_length end
                    (omega (arith, ap length nil, left1, count, all)))
                (λ some_left.
                  more_end s.remain s.board.buffer_length end
                    (elim (Bool-cases (ltb s.board.buffer_length s.remain)) [
                      | inl more ↦ ground (arith, more)
                      | inr less ↦ absurd (
                          some_left (
                            nil_of_length (drop s1.sent user_bytes)
                              (ground (arith, less, left1, count, all))))
                    ]))
                i,
          )
    ]
