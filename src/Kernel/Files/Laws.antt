-- ===== src/Kernel/Files/Laws.antt =====
-- The number of autopollers of a board, and the user mutex.
use linux_gpib.Prelude.{
  ℕ, ◌+◌, ◌-◌, ◌≡◌, refl, ap, ◌∙◌, Bool, true, false, arith, ℤ, pos, Option, none, some, List, [],
  ◌∷◌, ltb, ◌==◌, if◌then◌else◌, set, Bool-cases, inl, inr, ◌≢◌,
}
use linux_gpib.Uapi.Errno.{eperm, einval}
use linux_gpib.Kernel.Types.{Board, FilePrivate, Descriptor}
use linux_gpib.Kernel.Handles.{slot, handle_to_descriptor}
use linux_gpib.Kernel.Files.{
  enable_autopoll, disable_autopoll, set_autopoll, autospoll_ioctl, mutex_ioctl,
}

abbrev pub flag_of : Option Descriptor → ℕ
flag_of none = 0
flag_of (some desc) = if desc.autopoll_enabled then 1 else 0

-- 1 if the file is an autopoller, 0 if it is none
abbrev pub autopolls : FilePrivate → ℕ
autopolls file = flag_of (slot file.descriptors 0)

slot-set_first :
    (slots : List (Option Descriptor)) (d e : Descriptor)
    → slot slots 0 ≡ some d
    → slot (set slots 0 (some e)) 0 ≡ some e
slot-set_first [] d e h = cc
slot-set_first (x ∷ slots) d e h = refl

module _ {D : Type 0} where
  -- Switching autopolling on or off keeps the number of autopollers that are other files; it
  -- fails with -EINVAL, and then changes nothing, only if a file that is none is to be switched
  -- off.
  pub autospoll_counts :
      (enable : Bool) (file : FilePrivate) (board : Board D) (desc : Descriptor) (others : ℕ)
      → slot file.descriptors 0 ≡ some desc
      → board.autospollers ≡ others + autopolls file
      → (retval : ℤ) × (file' : FilePrivate) × (board' : Board D) × (autospoll_ioctl true enable
            file board
          ≡ some (retval, file', board'))
        × (board'.autospollers ≡ others + autopolls file')
        × (autopolls file' ≡ (if enable then 1 else 0))
        × (retval ≡ (if enable then pos 0 else (if desc.autopoll_enabled then pos 0 else einval)))
  unfolding autospoll_ioctl handle_to_descriptor set_autopoll
  autospoll_counts enable file board desc others found counted =
      let switched = λ (b : Bool).
        slot-set_first file.descriptors desc (record desc { autopoll_enabled = b }) found in
      let kept : board.autospollers ≡ others + (if desc.autopoll_enabled then 1 else 0) =
        counted ∙ ap (others +◌) (ap flag_of found) in
      let changed = λ (b : Bool). ap flag_of (switched b) in
      elim (Bool-cases enable) [
        | inl e ↦ elim (Bool-cases desc.autopoll_enabled) [
          | inl a ↦ (
            pos 0,
            file,
            board,
            simp (found, e, enable_autopoll, a),
            counted,
            ap flag_of found ∙ simp (e, a),
            simp e,
          )
          | inr a ↦ (
            pos 0,
            set_autopoll file desc true,
            record board { autospollers = board.autospollers + 1 },
            simp (found, e, enable_autopoll, a),
            ground (arith, kept, a, changed true),
            changed true ∙ simp e,
            simp e,
          )
        ]
        | inr e ↦ elim (Bool-cases desc.autopoll_enabled) [
          | inl a ↦
              let some_left : ltb 0 board.autospollers ≡ true = ground (arith, kept, a) in
              (
                pos 0,
                set_autopoll file desc false,
                record board { autospollers = board.autospollers - 1 },
                simp (found, e, disable_autopoll, a, some_left),
                ground (arith, kept, a, changed false),
                changed false ∙ simp e,
                simp (e, a),
              )
          | inr a ↦ (
            einval,
            file,
            board,
            simp (found, e, disable_autopoll, a),
            counted,
            ap flag_of found ∙ simp (e, a),
            simp (e, a),
          )
        ]
      ]

  -- A process that has locked the mutex is the one that may unlock it: another is refused with
  -- -EPERM, and the unlocking leaves the mutex free and without an owner.
  pub mutex_owner :
      (pid other : ℕ) (file file2 : FilePrivate) (board : Board D)
      → board.user_mutex ≡ false
      → other ≢ pid
      → (file' : FilePrivate) × (board' : Board D) × (mutex_ioctl true false pid true file board
          ≡ some (pos 0, file', board'))
        × (board'.user_mutex ≡ true)
        × (mutex_ioctl true false other true file2 board' ≡ none)
        × (mutex_ioctl true false other false file2 board' ≡ some (eperm, file2, board'))
        × (mutex_ioctl true false pid false file' board'
            ≡ some (
              pos 0,
              record file { holding_mutex = false },
              record board { user_mutex = false; locking_pid = 0 },
            ))
  unfolding mutex_ioctl
  mutex_owner pid other file file2 board free ne =
      let mine : (pid == pid) ≡ true = ground arith in
      let not_mine : (other == pid) ≡ false = ground (arith, ne) in
      (
        record file { holding_mutex = true },
        record board { user_mutex = true; locking_pid = pid },
        simp free,
        refl,
        refl,
        simp not_mine,
        simp mine,
      )
