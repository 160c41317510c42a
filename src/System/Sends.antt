-- ===== src/System/Sends.antt =====
-- What `send_data` and `InternalSendDataBytes` put on the bus, through `write_ioctl`, with a
-- hardware driver that records what it is given.
use linux_gpib.Prelude.{
  ℕ, ◌≡◌, refl, sym, ap, ◌∙◌, Bool, true, false, ◌||◌, arith, ℤ, pos, List, [], ◌∷◌, ◌++◌, ◌==◌,
  ◌≤◌, not, if◌then◌else◌, some, List-cases, length-append, length, append_assoc, Bool-cases, inl,
  inr,
}
use mathlib.Core.Path.{subst}
use linux_gpib.Kernel.Types.{Board, FilePrivate}
use linux_gpib.Kernel.Read.{UserMemory}
use linux_gpib.Kernel.Write.Framing.{Log, sent_bytes, IsFramed, recorder}
use linux_gpib.Kernel.Write.Sent.{IsMapped, IsReady, IsDelivered, write_ioctl-delivers}
use linux_gpib.User.Codes.{dab_end, nl_end, null_end}
use linux_gpib.User.Session.{Request, Driver, Session}
use linux_gpib.User.Write.{send_data, write_error, internal_send_data_bytes, send_newline}
use linux_gpib.System.{OpenBoard, to_cmd, to_reply, to_open, count_of, IsCore}

-- A call of the library on a session has delivered some bytes.
pub record IsOnBus (log : Log) (bytes : List ℕ) (end : Bool) (s s' : Session (OpenBoard Log))
    : Type 0 where
  pub delivered : IsDelivered s.conf.handle log bytes end s'.world.file s'.world.board
  pub handle : s'.conf.handle ≡ s.conf.handle

sent_bytes-append : (xs ys : Log) → sent_bytes (xs ++ ys) ≡ sent_bytes xs ++ sent_bytes ys
sent_bytes-append [] ys = refl
sent_bytes-append ((buf, eoi) ∷ xs) ys =
    ap (buf ++◌) (sent_bytes-append xs ys) ∙ sym (append_assoc buf (sent_bytes xs) (sent_bytes ys))

-- Calls without END, and then some with END on the last.
IsFramed-append :
    (xs : Log) (buf : List ℕ) (eoi : Bool) (ys : Log)
    → IsFramed false xs
    → IsFramed true ((buf, eoi) ∷ ys)
    → IsFramed true (xs ++ (buf, eoi) ∷ ys)
IsFramed-append [] buf eoi ys h k = k
IsFramed-append ((b, e) ∷ []) buf eoi ys h k = (h, k)
IsFramed-append ((b, e) ∷ (b', e') ∷ xs) buf eoi ys (h, hs) k =
    (h, IsFramed-append ((b', e') ∷ xs) buf eoi ys hs k)

-- Some bytes without END, and then some more, at least one, with it.
IsDelivered-append :
    {handle : ℤ} {log : Log} {xs : List ℕ} {file1 : FilePrivate} {board1 : Board Log} (y : ℕ)
    (ys : List ℕ) {file2 : FilePrivate} {board2 : Board Log}
    (first : IsDelivered handle log xs false file1 board1)
    → IsDelivered handle (log ++ first.added) (y ∷ ys) true file2 board2
    → IsDelivered handle log (xs ++ y ∷ ys) true file2 board2
IsDelivered-append {log = log} y ys first second = elim (List-cases second.added) [
  | inl e ↦ (let nothing = sym (ap sent_bytes e) ∙ second.bytes_sent in absurd cc)
  | inr ((buf, eoi), rest, e) ↦ record {
    added = first.added ++ second.added;
    ready = record {
      handle_open = second.ready.handle_open;
      room = second.ready.room;
      idle = second.ready.idle;
      logged = second.ready.logged ∙ ap some (append_assoc log first.added second.added);
    };
    bytes_sent =
        sent_bytes-append first.added second.added ∙ rw (first.bytes_sent, second.bytes_sent) refl;
    framed = rw e (
        IsFramed-append first.added buf eoi rest first.framed
          (subst (IsFramed true) e second.framed));
  }
]

-- What `InternalSendDataBytes` is to send, and whether END goes with its last byte.
abbrev pub message : List ℕ → ℕ → List ℕ
message buffer eotmode = if eotmode == nl_end then buffer ++ 10 ∷ [] else buffer

module _ (os : UserMemory) (driver : Driver (OpenBoard Log)) (core : IsCore recorder os driver)
    (mapped : IsMapped os) where
  send_data-IsOnBus :
      (usec : ℕ) (bytes : List ℕ) (end : Bool) (log : Log) (s : Session (OpenBoard Log))
      → IsReady s.conf.handle log s.world.file s.world.board
      → let r = send_data driver usec bytes end s in
        (r.0 ≡ pos 0) × (r.1 ≡ length bytes) × IsOnBus log bytes end s r.2
  unfolding send_data write_error
  send_data-IsOnBus usec bytes end log s ready =
      let request : Request = record {
        requested = length bytes;
        end = end;
        handle = s.conf.handle;
      } in
      let board = record s.world.board { usec_timeout = usec } in
      let w = record s.world { board = board } in
      let timed : IsReady s.conf.handle log s.world.file board = record {
        handle_open = ready.handle_open;
        room = ready.room;
        idle = ready.idle;
        logged = ready.logged;
      } in
      let (r, same, ok, reply, delivered) =
        write_ioctl-delivers os (to_cmd request) bytes log s.world.file board mapped timed refl
          refl in
      let answer = core.write request bytes w r same in
      let told : (to_reply request r).result ≡ pos 0 = ok in
      let count : (to_reply request r).completed ≡ length bytes = ap count_of reply in
      let whole : driver.write request bytes (driver.set_timeout usec s.world)
          ≡ (to_reply request r, to_open r) =
        rw (core.set_timeout usec s.world) answer in
      rw (whole, told, count) (refl, refl, record { delivered = delivered; handle = refl })

  -- On a ready board, `InternalSendDataBytes` with any of the three ways to end a message succeeds,
  -- counts the bytes of the message, and puts them on the bus in order: the buffer, and after it a
  -- newline for NLend; END goes with the last byte alone, and with none for NULLend.
  pub internal_send_data_bytes-IsOnBus :
      (buffer : List ℕ) (eotmode : ℕ) (log : Log) (s : Session (OpenBoard Log))
      → s.conf.is_interface ≡ true
      → eotmode ≤ 2
      → IsReady s.conf.handle log s.world.file s.world.board
      → let r = internal_send_data_bytes driver buffer eotmode s in
        (r.0 ≡ pos 0)
        × (r.1.globals.ibcnt ≡ length (message buffer eotmode))
        × IsOnBus log (message buffer eotmode) (not (eotmode == null_end)) s r.1
  unfolding internal_send_data_bytes send_newline
  internal_send_data_bytes-IsOnBus buffer eotmode log s board known ready =
      let usec = s.conf.settings.usec_timeout in
      let first = send_data driver usec buffer (eotmode == dab_end) s in
      let s1 = first.2 in
      let (ok, count, on_bus) = send_data-IsOnBus usec buffer (eotmode == dab_end) log s ready in
      let of_three : (eotmode == dab_end || eotmode == nl_end || eotmode == null_end) ≡ true =
        ground arith in
      elim (Bool-cases (eotmode == nl_end)) [
        | inr other ↦
            let ends : (eotmode == dab_end) ≡ not (eotmode == null_end) = ground (arith, other) in
            let framed = subst (λ end. IsOnBus log buffer end s s1) ends on_bus in
            simp (board, of_three)
              (simp (ok, other)
                (refl, count, record { delivered = framed.delivered; handle = framed.handle }))
        | inl newline ↦
            let plain : (eotmode == dab_end) ≡ false = ground (arith, newline) in
            let ended : not (eotmode == null_end) ≡ true = ground (arith, newline) in
            let quiet = subst (λ end. IsOnBus log buffer end s s1) plain on_bus in
            let ready1 : IsReady s1.conf.handle (log ++ quiet.delivered.added) s1.world.file
                s1.world.board =
              rw on_bus.handle quiet.delivered.ready in
            let (ok2, count2, on_bus2) =
              send_data-IsOnBus s1.conf.settings.usec_timeout (10 ∷ []) true
                (log ++ quiet.delivered.added) s1 ready1 in
            let w2 = (send_data driver s1.conf.settings.usec_timeout (10 ∷ []) true s1).2.world in
            let newlined : IsDelivered s.conf.handle (log ++ quiet.delivered.added) (10 ∷ []) true
                w2.file w2.board =
              subst
                (λ h. IsDelivered h (log ++ quiet.delivered.added) (10 ∷ []) true w2.file w2.board)
                on_bus.handle on_bus2.delivered in
            let both = IsDelivered-append 10 [] quiet.delivered newlined in
            let total = length-append buffer (10 ∷ []) in
            simp (board, of_three)
              (simp (ok, newline, ended)
                (
                  ok2,
                  omega (arith, count, count2, total),
                  record { delivered = both; handle = on_bus2.handle ∙ on_bus.handle },
                ))
      ]
